-- ===== src/Models/Grants/Laws.antt =====
-- models/config.go: which grant governs a route, and the canonical rules.
use Prim.Native.String.{len}
use xal_tor_ka.Base.{
  ◌≤◌, ◌<◌, String, true, false, List, [], ◌∷◌, ◌==◌, eq_iff, eq-nil_of_len, ne-nil_of_len, len-nil,
  or→either, has_prefix_refl, has_prefix_shorter, has_prefix_unique, has_prefix, trim_right, ◌≡◌,
  refl, sym, ap, ◌∙◌, ◌⊎◌, inl, inr, arith, In, Bool-cases,
}
use xal_tor_ka.Models.Services.{Backend, Route}
use xal_tor_ka.Models.Grants.{
  is_at_or_below, is_root_path, grant_id, nearest_step, nearest, effective_grant_id, canonical_rule,
}

abbrev pub anchor : Route → String
anchor r = trim_right b'/' r.path

-- The route carries its own list of users, is mounted below the root, and covers the path.
pub record Governs (path : String) (r : Route) : Type 0 where
  pub own : r.own_grants ≡ true
  pub below_root : is_root_path r.path ≡ false
  pub covers : is_at_or_below path (anchor r) ≡ true

nearest_step-cases :
    (path best : String) (r : Route)
    → (nearest_step path best r ≡ best)
      ⊎ (Governs path r × (nearest_step path best r ≡ anchor r) × (len best < len (anchor r)))
unfolding nearest_step
nearest_step-cases path best r = ground arith

-- Nothing that governs the path is deeper than what a round keeps.
nearest_step-upper :
    (path best : String) (r : Route)
    → Governs path r
    → len (anchor r) ≤ len (nearest_step path best r)
unfolding nearest_step
nearest_step-upper path best r g = ground arith

nearest_step-grows : (path best : String) (r : Route) → len best ≤ len (nearest_step path best r)
nearest_step-grows path best r = ground (arith, nearest_step-cases path best r)

nearest-grows : (path best : String) (rs : List Route) → len best ≤ len (nearest path best rs)
unfolding nearest
nearest-grows path best [] = omega arith
nearest-grows path best (r ∷ rs) =
    omega (arith, nearest_step-grows path best r, nearest-grows path (nearest_step path best r) rs)

nearest-upper :
    (path best : String) (r : Route) (rs : List Route)
    → In r rs
    → Governs path r
    → len (anchor r) ≤ len (nearest path best rs)
unfolding nearest
nearest-upper path best r [] i g = elim i [ ]
nearest-upper path best r (s ∷ rs) (inl e) g = omega (
  arith,
  nearest_step-upper path best s (rw (sym e) g),
  nearest-grows path (nearest_step path best s) rs,
  ap (λ t. len (anchor t)) e,
)
nearest-upper path best r (s ∷ rs) (inr i) g =
    nearest-upper path (nearest_step path best s) r rs i g

-- What the loop returns is its start, or the anchor of a route that governs the path.
nearest-cases :
    (path best : String) (rs : List Route)
    → (nearest path best rs ≡ best)
      ⊎ ((r : Route) × In r rs
          × Governs path r
          × (nearest path best rs ≡ anchor r)
          × (len best < len (anchor r)))
unfolding nearest
nearest-cases path best [] = inl refl
nearest-cases path best (s ∷ rs) = elim (nearest-cases path (nearest_step path best s) rs) [
  | inl e ↦ elim (nearest_step-cases path best s) [
    | inl k ↦ inl (e ∙ k)
    | inr (g, k, lt) ↦ inr (s, inl refl, g, e ∙ k, lt)
  ]
  | inr (r, i, g, e, lt) ↦ inr (r, inr i, g, e, omega (arith, nearest_step-grows path best s))
]

at_or_below→has_prefix :
    (path base : String) → is_at_or_below path base ≡ true → has_prefix path base ≡ true
unfolding is_at_or_below
at_or_below→has_prefix path base h = elim (or→either (path == base) _ h) [
  | inl e ↦ rw ((eq_iff path base).0 e) (has_prefix_refl base)
  | inr e ↦ has_prefix_shorter path base "/" e
]

-- Two governing routes of one depth have the same anchor.
anchor_unique :
    (path : String) (r s : Route)
    → Governs path r
    → Governs path s
    → len (anchor r) ≡ len (anchor s)
    → anchor r ≡ anchor s
anchor_unique path r s g h e =
    has_prefix_unique path (anchor r) (anchor s) (at_or_below→has_prefix path (anchor r) g.covers)
      (at_or_below→has_prefix path (anchor s) h.covers) e

-- The nearest anchor depends on which routes there are, not on their order or number.
nearest-set :
    (path : String) (rs ss : List Route)
    → ((r : Route) → In r rs → In r ss)
    → ((r : Route) → In r ss → In r rs)
    → nearest path "" rs ≡ nearest path "" ss
nearest-set path rs ss f g = elim (nearest-cases path "" rs) [
  | inl e ↦ elim (nearest-cases path "" ss) [
    | inl k ↦ e ∙ sym k
    | inr (s, j, h, k, lt) ↦ absurd (omega (arith, nearest-upper path "" s rs (g s j) h, ap len e))
  ]
  | inr (r, i, h, e, lt) ↦ elim (nearest-cases path "" ss) [
    | inl k ↦ absurd (omega (arith, nearest-upper path "" r ss (f r i) h, ap len k))
    | inr (s, j, h', k, lt') ↦
        e
        ∙ anchor_unique path r s h h' (
            omega (
              arith,
              nearest-upper path "" r ss (f r i) h,
              nearest-upper path "" s rs (g s j) h',
              ap len e,
              ap len k,
            ))
        ∙ sym k
  ]
]

-- A route with a list of its own is governed by it. Any other is governed by the deepest route of
-- the backend that covers its path, is mounted below the root and has a list of its own, and by
-- the grant of the whole backend where there is no such route with an anchor.
pub effective_grant_id_lem :
    (be : Backend) (rt : Route)
    → ((rt.own_grants ≡ true) × (effective_grant_id be rt ≡ grant_id be.id rt.path))
      ⊎ ((rt.own_grants ≡ false)
          × ((r : Route) → In r be.routes → Governs rt.path r → anchor r ≡ "")
          × (effective_grant_id be rt ≡ be.id))
      ⊎ ((r : Route) × (rt.own_grants ≡ false)
          × In r be.routes
          × Governs rt.path r
          × ((s : Route) → In s be.routes → Governs rt.path s → len (anchor s) ≤ len (anchor r))
          × (effective_grant_id be rt ≡ grant_id be.id (anchor r)))
unfolding effective_grant_id
effective_grant_id_lem be rt = elim (Bool-cases rt.own_grants) [
  | inl own ↦ inl (own, rw own)
  | inr inherits ↦ elim (nearest-cases rt.path "" be.routes) [
    | inl e ↦ inr (
        inl (
          inherits,
          (λ r i g.
              eq-nil_of_len (anchor r)
                (omega (arith, nearest-upper rt.path "" r be.routes i g, ap len e, len-nil))),
          rw (inherits, e),
        ))
    | inr (r, i, g, e, lt) ↦ inr (
        inr (
          r,
          inherits,
          i,
          g,
          (λ s j h. rw e at (nearest-upper rt.path "" s be.routes j h)),
          rw (inherits, e) (rw (ne-nil_of_len (anchor r) (omega (arith, len-nil))) refl),
        ))
  ]
]

-- Neither the order of the routes nor a repeated one changes who may use a path.
pub effective_grant_id-set :
    (be : Backend) (rt : Route) (routes : List Route)
    → ((r : Route) → In r be.routes → In r routes)
    → ((r : Route) → In r routes → In r be.routes)
    → effective_grant_id (record be { routes = routes }) rt ≡ effective_grant_id be rt
unfolding effective_grant_id
effective_grant_id-set be rt routes f g = rw (nearest-set rt.path be.routes routes f g)

pub canonical_rule_idem : (r : String) → canonical_rule (canonical_rule r) ≡ canonical_rule r
unfolding canonical_rule
canonical_rule_idem r = ground (arith, eq_iff r "whitelist")
