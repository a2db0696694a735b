-- ===== src/Handlers/Services/Laws.antt =====
-- handlers/server.go and handlers/providers.go: what a reload puts in place.
use xal_tor_ka.Base.{
  String, ◌≡◌, refl, ap, ◌∙◌, ◌⊎◌, inl, inr, Bool, true, false, not, Option, none, some, List, [],
  ◌∷◌, ◌++◌, arith, ◌==◌, eq_iff, if◌then◌else◌, Bool-cases, keep, In, In-append_left,
  In-append_right, In-append, keep-In, In-keep, ◌↔◌, ◌≤◌,
}
use xal_tor_ka.Models.Services.{ProviderCfg, Route, Backend, Services}
use mathlib.Core.Path.{subst}
use xal_tor_ka.Matrix.{Resolver, set_backends, path_matches, resolve, hit, miss}
use xal_tor_ka.Matrix.Laws.{Covers, resolve_lem}
use Prim.Native.String.{len}
use xal_tor_ka.Handlers.Server.{Server}
use xal_tor_ka.Handlers.Services.{
  replace_provider, merge_provider, merge_providers, merged_backends, reloaded, reload,
}

-- the first provider of the id
abbrev pub find_provider : String → List ProviderCfg → Option ProviderCfg
find_provider id [] = none
find_provider id (p ∷ ps) = if p.id == id then some p else find_provider id ps

-- the last provider of the id, and otherwise the given one
abbrev pub last_provider : String → Option ProviderCfg → List ProviderCfg → Option ProviderCfg
last_provider id o [] = o
last_provider id o (p ∷ ps) = last_provider id (if p.id == id then some p else o) ps

find-append :
    (id : String) (ps : List ProviderCfg) (rp : ProviderCfg)
    → find_provider id (ps ++ (rp ∷ [])) ≡ elim (find_provider id ps) [
      | some p ↦ some p
      | none ↦ if rp.id == id then some rp else none
    ]
find-append id [] rp = refl
find-append id (p ∷ ps) rp = let k = find-append id ps rp in ground arith

replace-cases :
    (rp : ProviderCfg) (ps : List ProviderCfg)
    → ((replace_provider rp ps ≡ none) × (find_provider rp.id ps ≡ none))
      ⊎ ((qs : List ProviderCfg) × (replace_provider rp ps ≡ some qs)
          × ((id : String)
              → find_provider id qs ≡ (if rp.id == id then some rp else find_provider id ps)))
unfolding replace_provider
replace-cases rp [] = inl (refl, refl)
replace-cases rp (p ∷ ps) = elim (Bool-cases (p.id == rp.id)) [
  | inl e ↦ inr (
    rp ∷ ps,
    rw e refl,
    (λ id. ground (arith, eq_iff p.id rp.id, eq_iff rp.id id, eq_iff p.id id)),
  )
  | inr e ↦ elim (replace-cases rp ps) [
    | inl (q, k) ↦ inl (rw (e, q, replace_provider) refl, rw e k)
    | inr (qs, q, k) ↦ inr (
      p ∷ qs,
      rw (e, q, replace_provider) refl,
      (λ id.
          let here = k id in
          ground (arith, here, eq_iff p.id rp.id, eq_iff rp.id id, eq_iff p.id id)),
    )
  ]
]

appended :
    (b : Bool) (rp : ProviderCfg) (o : Option ProviderCfg)
    → (b ≡ true → o ≡ none)
    → elim o [ some p ↦ some p | none ↦ if b then some rp else none ] ≡ (if b then some rp else o)
appended true rp o h = rw (h refl) refl
appended false rp none h = refl
appended false rp (some p) h = refl

merge_provider-find :
    (id : String) (out : List ProviderCfg) (rp : ProviderCfg)
    → find_provider id (merge_provider out rp)
      ≡ (if rp.id == id then some rp else find_provider id out)
unfolding merge_provider
merge_provider-find id out rp = elim (replace-cases rp out) [
  | inr (qs, q, k) ↦ rw (q, merge_provider) (k id)
  | inl (q, k) ↦
      rw (q, merge_provider)
        (find-append id out rp
          ∙ appended (rp.id == id) rp (find_provider id out)
              (λ e. subst (λ x. find_provider x out ≡ none) ((eq_iff rp.id id).0 e) k))
]

-- The runtime provider of an id, the last if there are several, takes the place of the configured
-- one; an id that only one of the lists has keeps its provider.
pub merge_providers_lem :
    (id : String) (base runtime : List ProviderCfg)
    → find_provider id (merge_providers base runtime)
      ≡ last_provider id (find_provider id base) runtime
unfolding merge_providers
merge_providers_lem id base [] = refl
merge_providers_lem id base (rp ∷ rps) =
    merge_providers_lem id (merge_provider base rp) rps
    ∙ ap (λ o. last_provider id o rps) (merge_provider-find id base rp)

-- The backend is one of the configured ones, or an enabled service of the file.
abbrev pub InForce : Server → Services → Backend → Type 0
InForce s svc be = In be s.base_backends ⊎ (In be svc.backends × (be.disabled ≡ false))

-- The route is one of a backend in force, for the host, and covers the path.
abbrev pub Serves : Server → Services → String → String → Backend → Route → Type 0
Serves s svc host path be rt =
    InForce s svc be × In rt be.routes × (be.host ≡ host) × (path_matches path rt.path ≡ true)

module _ (s : Server) (svc : Services) where
  -- the table of a reload
  after : Resolver
  after = set_backends s.resolver (merged_backends s.base_backends svc)

  after-In : (be : Backend) → In be after.backends ↔ InForce s svc be
  unfolding set_backends merged_backends after
  after-In be = (there, back)
    where
      there : In be (s.base_backends ++ keep (λ b. not b.disabled) svc.backends) → InForce s svc be
      there i = elim (In-append be s.base_backends _ i) [
        | inl k ↦ inl k
        | inr k ↦
            let (j, on) = keep-In (λ b. not b.disabled) be svc.backends k in inr (j, ground arith)
      ]

      back : InForce s svc be → In be (s.base_backends ++ keep (λ b. not b.disabled) svc.backends)
      back (inl i) = In-append_left be s.base_backends _ i
      back (inr (i, off)) =
          In-append_right be s.base_backends _
            (In-keep (λ b. not b.disabled) be svc.backends i (rw off refl))

  Serves-Covers :
      (host path : String) (be : Backend) (rt : Route)
      → Covers host path after.backends be rt ↔ Serves s svc host path be rt
  Serves-Covers host path be rt = (
    (λ c. ((after-In be).0 c.listed, c.mounted, c.same_host, c.covers)),
    (λ (live, mounted, same, covers). record {
      listed = (after-In be).1 live;
      mounted = mounted;
      same_host = same;
      covers = covers;
    }),
  )

  resolve-Serves :
      (host path : String)
      → ((be : Backend) × (rt : Route) × (resolve after host path ≡ hit be rt)
          × Serves s svc host path be rt
          × ((b : Backend) (r : Route) → Serves s svc host path b r → len r.path ≤ len rt.path))
        ⊎ ((resolve after host path ≡ miss host after.backends)
            × ((b : Backend) (r : Route) → ¬ Serves s svc host path b r))
  resolve-Serves host path = elim (resolve_lem after host path) [
    | inl (be, rt, e, c, longest) ↦ inl (
      be,
      rt,
      e,
      (Serves-Covers host path be rt).0 c,
      (λ b r k. longest b r ((Serves-Covers host path b r).1 k)),
    )
    | inr (e, nothing) ↦ inr (e, (λ b r k. nothing b r ((Serves-Covers host path b r).1 k)))
  ]

-- A reload whose file cannot be read changes nothing. After any other, even if the proxy then
-- fails, the table holds exactly the configured backends and the enabled services of the file. A
-- request then resolves to a longest route of these that covers it on its host, and is a miss
-- exactly where none of them covers it.
pub reload_lem :
    (file : Option Services) (applied : Bool) (s : Server)
    → ((file ≡ none) × (reload file applied s ≡ (false, s)))
      ⊎ ((svc : Services) × (file ≡ some svc)
          × ((reload file applied s).0 ≡ applied)
          × ((be : Backend) → In be (reload file applied s).1.resolver.backends ↔ InForce s svc be)
          × ((host path : String)
              → let table : Resolver = (reload file applied s).1.resolver in
                ((be : Backend) × (rt : Route) × (resolve table host path ≡ hit be rt)
                  × Serves s svc host path be rt
                  × ((b : Backend) (r : Route)
                      → Serves s svc host path b r
                      → len r.path ≤ len rt.path))
                ⊎ ((resolve table host path ≡ miss host table.backends)
                    × ((b : Backend) (r : Route) → ¬ Serves s svc host path b r))))
unfolding reload reloaded after
reload_lem none applied s = inl (refl, refl)
reload_lem (some svc) applied s = inr (svc, refl, refl, after-In s svc, resolve-Serves s svc)
