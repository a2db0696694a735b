-- ===== src/Matrix/Laws.antt =====
-- matrix/matrix.go: what Resolve finds, and the segment boundary of a path prefix.
use Prim.Native.String.{len, ◌++◌ as str_append}
use text.Mathlib.TextLemmas.{append_assoc}
use xal_tor_ka.Base.{
  ℕ, suc, ◌≤◌, String, ◌≡◌, refl, sym, ap, ◌∙◌, ◌↔◌, ◌⊎◌, inl, inr, true, none, some, List, [], ◌∷◌,
  arith, ◌==◌, eq_iff, Bool-cases, or→either, In, has_prefix, trim_right, has_prefix→append,
  has_prefix-append,
}
use xal_tor_ka.Models.Services.{Route, Backend}
use xal_tor_ka.Models.Grants.{is_root_path}
use xal_tor_ka.Matrix.{
  Resolver, path_matches, Best, is_longer, route_step, route_loop, backend_step, backend_loop, hit,
  miss, outcome, resolve,
}

-- A route path covers a request path exactly if it is the root, or, without its last slashes, the
-- request path itself or the request path up to one of its slashes.
pub path_matches_iff :
    (path route_path : String)
    → (path_matches path route_path ≡ true) ↔ (
        (is_root_path route_path ≡ true)
        ⊎ (path ≡ trim_right b'/' route_path)
        ⊎ ((rest : String) × (path
              ≡ str_append (trim_right b'/' route_path) (str_append "/" rest))))
unfolding path_matches
path_matches_iff path route_path = (forward, back)
  where
    rp : String
    rp = trim_right b'/' route_path

    forward :
        path_matches path route_path ≡ true
        → (is_root_path route_path ≡ true)
          ⊎ (path ≡ rp)
          ⊎ ((rest : String) × (path ≡ str_append rp (str_append "/" rest)))
    forward h = elim (Bool-cases (is_root_path route_path)) [
      | inl e ↦ inl e
      | inr e ↦ elim (or→either (path == rp) _ (rw e at h)) [
        | inl k ↦ inr (inl ((eq_iff path rp).0 k))
        | inr k ↦
            let (rest, q) = has_prefix→append path (str_append rp "/") k in
            inr (inr (rest, q ∙ append_assoc rp "/" rest))
      ]
    ]

    back :
        (is_root_path route_path ≡ true)
          ⊎ (path ≡ rp)
          ⊎ ((rest : String) × (path ≡ str_append rp (str_append "/" rest)))
        → path_matches path route_path ≡ true
    back (inl e) = rw e
    back (inr (inl e)) = ground (arith, eq_iff path rp)
    back (inr (inr (rest, e))) =
        let k : has_prefix path (str_append rp "/") ≡ true =
          rw (e, sym (append_assoc rp "/" rest)) (has_prefix-append (str_append rp "/") rest) in
        ground arith

-- The route belongs to a backend of the host and covers the path.
pub record Covers (host path : String) (bs : List Backend) (be : Backend) (rt : Route)
    : Type 0 where
  pub listed : In be bs
  pub mounted : In rt be.routes
  pub same_host : be.host ≡ host
  pub covers : path_matches path rt.path ≡ true

abbrev depth : Best → ℕ
depth none = 0
depth (some (be, rt)) = suc (len rt.path)

module _ (path : String) (be : Backend) where
  route_step-cases :
      (best : Best) (rt : Route)
      → (route_step path be best rt ≡ best)
        ⊎ ((path_matches path rt.path ≡ true) × (route_step path be best rt ≡ some (be, rt)))
  unfolding route_step
  route_step-cases best rt = ground arith

  route_step-grows : (best : Best) (rt : Route) → depth best ≤ depth (route_step path be best rt)
  unfolding route_step is_longer
  route_step-grows none rt = omega arith
  route_step-grows (some (b, r)) rt = ground arith

  route_step-upper :
      (best : Best) (rt : Route)
      → path_matches path rt.path ≡ true
      → suc (len rt.path) ≤ depth (route_step path be best rt)
  unfolding route_step is_longer
  route_step-upper none rt h = rw h (omega arith)
  route_step-upper (some (b, r)) rt h = ground arith

  route_loop-grows :
      (best : Best) (rts : List Route) → depth best ≤ depth (route_loop path be best rts)
  unfolding route_loop
  route_loop-grows best [] = omega arith
  route_loop-grows best (rt ∷ rts) =
      omega (arith, route_step-grows best rt, route_loop-grows (route_step path be best rt) rts)

  route_loop-upper :
      (best : Best) (rt : Route) (rts : List Route)
      → In rt rts
      → path_matches path rt.path ≡ true
      → suc (len rt.path) ≤ depth (route_loop path be best rts)
  unfolding route_loop
  route_loop-upper best rt [] i h = elim i [ ]
  route_loop-upper best rt (s ∷ rts) (inl e) h = omega (
    arith,
    route_step-upper best s (rw (sym e) h),
    route_loop-grows (route_step path be best s) rts,
    ap (λ t. len t.path) e,
  )
  route_loop-upper best rt (s ∷ rts) (inr i) h =
      route_loop-upper (route_step path be best s) rt rts i h

  route_loop-cases :
      (best : Best) (rts : List Route)
      → (route_loop path be best rts ≡ best)
        ⊎ ((rt : Route) × In rt rts
            × (path_matches path rt.path ≡ true)
            × (route_loop path be best rts ≡ some (be, rt)))
  unfolding route_loop
  route_loop-cases best [] = inl refl
  route_loop-cases best (s ∷ rts) = elim (route_loop-cases (route_step path be best s) rts) [
    | inl e ↦ elim (route_step-cases best s) [
      | inl k ↦ inl (e ∙ k)
      | inr (h, k) ↦ inr (s, inl refl, h, e ∙ k)
    ]
    | inr (rt, i, h, e) ↦ inr (rt, inr i, h, e)
  ]

module _ (host path : String) where
  backend_step-grows :
      (best : Best) (be : Backend) → depth best ≤ depth (backend_step host path best be)
  unfolding backend_step
  backend_step-grows best be = ground (arith, route_loop-grows path be best be.routes)

  backend_loop-grows :
      (best : Best) (bs : List Backend) → depth best ≤ depth (backend_loop host path best bs)
  unfolding backend_loop
  backend_loop-grows best [] = omega arith
  backend_loop-grows best (be ∷ bs) =
      omega
        (arith, backend_step-grows best be, backend_loop-grows (backend_step host path best be) bs)

  backend_step-upper :
      (best : Best) (be : Backend) (rt : Route)
      → be.host ≡ host
      → In rt be.routes
      → path_matches path rt.path ≡ true
      → suc (len rt.path) ≤ depth (backend_step host path best be)
  unfolding backend_step
  backend_step-upper best be rt e i h =
      rw ((eq_iff be.host host).1 e) (route_loop-upper path be best rt be.routes i h)

  backend_loop-upper :
      (best : Best) (bs : List Backend) (be : Backend) (rt : Route)
      → Covers host path bs be rt
      → suc (len rt.path) ≤ depth (backend_loop host path best bs)
  unfolding backend_loop
  backend_loop-upper best [] be rt c = elim c.listed [ ]
  backend_loop-upper best (b ∷ bs) be rt c = elim c.listed [
    | inl e ↦ omega (
      arith,
      backend_step-upper best b rt (ap (λ x. x.host) (sym e) ∙ c.same_host) (rw (sym e) c.mounted)
          c.covers,
      backend_loop-grows (backend_step host path best b) bs,
    )
    | inr i ↦
        backend_loop-upper (backend_step host path best b) bs be rt
          (record { listed = i; mounted = c.mounted; same_host = c.same_host; covers = c.covers })
  ]

  backend_step-cases :
      (best : Best) (be : Backend)
      → (backend_step host path best be ≡ best)
        ⊎ ((rt : Route) × (be.host ≡ host)
            × In rt be.routes
            × (path_matches path rt.path ≡ true)
            × (backend_step host path best be ≡ some (be, rt)))
  unfolding backend_step
  backend_step-cases best be = elim (Bool-cases (be.host == host)) [
    | inl e ↦ elim (route_loop-cases path be best be.routes) [
      | inl k ↦ inl (rw e k)
      | inr (rt, i, h, k) ↦ inr (rt, (eq_iff be.host host).0 e, i, h, rw e k)
    ]
    | inr e ↦ inl (rw e)
  ]

  backend_loop-cases :
      (best : Best) (bs : List Backend)
      → (backend_loop host path best bs ≡ best)
        ⊎ ((be : Backend) × (rt : Route) × Covers host path bs be rt
            × (backend_loop host path best bs ≡ some (be, rt)))
  unfolding backend_loop
  backend_loop-cases best [] = inl refl
  backend_loop-cases best (b ∷ bs) = elim (backend_loop-cases (backend_step host path best b) bs) [
    | inl e ↦ elim (backend_step-cases best b) [
      | inl k ↦ inl (e ∙ k)
      | inr (rt, s, i, h, k) ↦
          inr (b, rt, record { listed = inl refl; mounted = i; same_host = s; covers = h }, e ∙ k)
    ]
    | inr (be, rt, c, e) ↦ inr (
      be,
      rt,
      record {
        listed = inr c.listed;
        mounted = c.mounted;
        same_host = c.same_host;
        covers = c.covers;
      },
      e,
    )
  ]

-- Resolve answers with a route that covers the request and is as long as any that does. It answers
-- without one exactly where no route covers the request.
pub resolve_lem :
    (r : Resolver) (host path : String)
    → ((be : Backend) × (rt : Route) × (resolve r host path ≡ hit be rt)
        × Covers host path r.backends be rt
        × ((b : Backend) (s : Route) → Covers host path r.backends b s → len s.path ≤ len rt.path))
      ⊎ ((resolve r host path ≡ miss host r.backends)
          × ((b : Backend) (s : Route) → ¬ Covers host path r.backends b s))
unfolding resolve outcome
resolve_lem r host path = elim (backend_loop-cases host path none r.backends) [
  | inl e ↦ inr (
    rw e,
    (λ b s c. omega (arith, backend_loop-upper host path none r.backends b s c, ap depth e)),
  )
  | inr (be, rt, c, e) ↦ inl (
    be,
    rt,
    rw e,
    c,
    (λ b s d. omega (arith, backend_loop-upper host path none r.backends b s d, ap depth e)),
  )
]
