-- ===== src/Proxy/Locations/Blocks.antt =====
-- proxy/generate.go, writeServer: which services get a server block without a location written twice.
use xal_tor_ka.Base.{
  ℕ, suc, String, ◌≡◌, refl, sym, ◌↔◌, ◌⊎◌, inl, inr, List, [], ◌∷◌, ◌++◌, Bool-cases, In,
  In-append, In-append_left, In-append_right, Distinct, Distinct-append, Distinct-apart,
  Distinct-right, shares_none, distinct_texts-Distinct,
}
use xal_tor_ka.Models.Services.{Route, NginxOpts, Backend}
use mathlib.Core.Path.{subst}
use xal_tor_ka.Proxy.Group.{location_path, group_uses_auth, group_declares_path}
use xal_tor_ka.Proxy.Locations.{
  gate_paths, reserved, is_seen, write_routes, write_members, locations, first_paths, last_paths,
  location_paths,
}
use xal_tor_ka.Proxy.Locations.Laws.{paths, map-append, locations_lem}

abbrev pub always_written : List String
always_written = first_paths ++ last_paths

-- The path of a block is that of a route.
write_routes-route :
    (n : NginxOpts) (seen : List String) (idx : ℕ) (rts : List Route) (p : String)
    → In p (paths (write_routes n seen idx rts).blocks)
    → (rt : Route) × In rt rts × (location_path rt ≡ p)
unfolding write_routes
write_routes-route n seen idx [] p i = elim i [ ]
write_routes-route n seen idx (rt ∷ rts) p i = elim (Bool-cases (is_seen seen (location_path rt))) [
  | inl e ↦ let (r, j, q) = write_routes-route n seen idx rts p (rw e at i) in (r, inr j, q)
  | inr e ↦ own (write_routes-route n (location_path rt ∷ seen) (suc idx) rts p) (rw e at i)
]
  where
    own :
        {Later : Type 0}
        → (Later → (r : Route) × In r rts × (location_path r ≡ p))
        → (p ≡ location_path rt) ⊎ Later
        → (r : Route) × In r (rt ∷ rts) × (location_path r ≡ p)
    own later (inl e) = (rt, inl refl, sym e)
    own later (inr j) = let (r, k, q) = later j in (r, inr k, q)

write_members-route :
    (seen : List String) (idx : ℕ) (bes : List Backend) (p : String)
    → In p (paths (write_members seen idx bes).blocks)
    → (be : Backend) × (rt : Route) × In be bes × In rt be.routes × (location_path rt ≡ p)
unfolding write_members
write_members-route seen idx [] p i = elim i [ ]
write_members-route seen idx (be ∷ bes) p i =
    let one = write_routes be.nginx seen idx be.routes in
    let rest = write_members one.seen one.next bes in
    elim (In-append p (paths one.blocks) (paths rest.blocks)
      (subst (λ l. In p l) (map-append one.blocks rest.blocks) i)) [
        | inl k ↦
            let (rt, j, q) = write_routes-route be.nginx seen idx be.routes p k in
            (be, rt, inl refl, j, q)
        | inr k ↦
            let (b, rt, j, m, q) = write_members-route one.seen one.next bes p k in
            (b, rt, inr j, m, q)
      ]

locations-route :
    (grp : List Backend) (p : String)
    → In p (paths (locations grp))
    → (be : Backend) × (rt : Route) × In be grp × In rt be.routes × (location_path rt ≡ p)
unfolding locations
locations-route grp p i = write_members-route (reserved grp) 0 grp p i

reserved-cases :
    (grp : List Backend)
    → (reserved grp ≡ [])
      ⊎ (reserved grp ≡ gate_paths)
      ⊎ (reserved grp ≡ gate_paths ++ ("/admin" ∷ []))
unfolding reserved
reserved-cases grp = elim (Bool-cases (group_uses_auth grp)) [
  | inr e ↦ inl (rw e refl)
  | inl e ↦ elim (Bool-cases (group_declares_path grp "/admin")) [
    | inl q ↦ inr (inl (rw (e, q) refl))
    | inr q ↦ inr (inr (rw (e, q) refl))
  ]
]

reserved-apart :
    (grp : List Backend)
    → Distinct (reserved grp) × ((p : String) → In p always_written → ¬ In p (reserved grp))
reserved-apart grp = elim (reserved-cases grp) [
  | inl e ↦ rw e (tt, (λ p i j. elim j [ ]))
  | inr (inl e) ↦
      rw e (distinct_texts-Distinct gate_paths refl, shares_none always_written gate_paths refl)
  | inr (inr e) ↦
      let six = gate_paths ++ ("/admin" ∷ []) in
      rw e (distinct_texts-Distinct six refl, shares_none always_written six refl)
]

-- The blocks that the generator writes for a host all have different paths exactly if no service
-- declares a route on a path that every server block has anyway: the certificate challenge, the
-- gate's check and the two named locations. A service that declares one makes a block twice, since
-- these are not in the list of the paths seen. In any case every route of every service has a block
-- with its path. (An administrator's own text for NGINX is not looked into.)
pub location_paths_lem :
    (grp : List Backend)
    → (Distinct (location_paths grp) ↔ (
        (be : Backend) (rt : Route)
        → In be grp
        → In rt be.routes
        → ¬ In (location_path rt) always_written))
      × ((be : Backend) (rt : Route)
          → In be grp
          → In rt be.routes
          → In (location_path rt) (location_paths grp))
unfolding location_paths
location_paths_lem grp = ((none_declared, apart), present)
  where
    own : List String
    own = paths (locations grp)

    rest : List String
    rest = own ++ last_paths

    -- one of the four is not a second block elsewhere
    not_twice :
        Distinct (first_paths ++ (reserved grp ++ rest))
        → (p : String) → In p always_written
        → ¬ (In p own ⊎ In p (reserved grp))
    not_twice d p i (inr j) = (reserved-apart grp).1 p i j
    not_twice d p i (inl j) = elim (In-append p first_paths last_paths i) [
      | inl k ↦
          Distinct-apart first_paths (reserved grp ++ rest) d p k
            (In-append_right p (reserved grp) rest (In-append_left p own last_paths j))
      | inr k ↦
          let tail =
            Distinct-right (reserved grp) rest
              (Distinct-right first_paths (reserved grp ++ rest) d) in
          Distinct-apart own last_paths tail p j k
    ]

    none_declared :
        Distinct (first_paths ++ (reserved grp ++ rest))
        → (be : Backend) (rt : Route) → In be grp
        → In rt be.routes
        → ¬ In (location_path rt) always_written
    none_declared d be rt i j k =
        let (_, _, served) = locations_lem grp in
        not_twice d (location_path rt) k (served be rt i j)

    Free : Type 0
    Free =
        (be : Backend) (rt : Route)
        → In be grp
        → In rt be.routes
        → ¬ In (location_path rt) always_written

    free : Free → (p : String) → In p always_written → ¬ In p own
    free h p i j =
        let (be, rt, k, m, q) = locations-route grp p j in
        h be rt k m (subst (λ x. In x always_written) (sym q) i)

    rest_apart : Free → Distinct rest
    rest_apart h =
        Distinct-append own last_paths (let (d, _, _) = locations_lem grp in d)
          (distinct_texts-Distinct last_paths refl)
          (λ p j i. free h p (In-append_right p first_paths last_paths i) j)

    gate_first : (p : String) → In p own → ¬ In p (reserved grp)
    gate_first = let (_, new, _) = locations_lem grp in new

    gate_apart : Free → Distinct (reserved grp ++ rest)
    gate_apart h =
        Distinct-append (reserved grp) rest (reserved-apart grp).0 (rest_apart h) (λ p i j.
          elim (In-append p own last_paths j) [
            | inl k ↦ gate_first p k i
            | inr k ↦ (reserved-apart grp).1 p (In-append_right p first_paths last_paths k) i
          ])

    first_apart : Free → (p : String) → In p first_paths → ¬ In p (reserved grp ++ rest)
    first_apart h p i j =
        let fixed = In-append_left p first_paths last_paths i in
        elim (In-append p (reserved grp) rest j) [
          | inl k ↦ (reserved-apart grp).1 p fixed k
          | inr k ↦ elim (In-append p own last_paths k) [
            | inl m ↦ free h p fixed m
            | inr m ↦ shares_none first_paths last_paths refl p i m
          ]
        ]

    apart : Free → Distinct (first_paths ++ (reserved grp ++ rest))
    apart h =
        Distinct-append first_paths (reserved grp ++ rest)
          (distinct_texts-Distinct first_paths refl) (gate_apart h) (first_apart h)

    present :
        (be : Backend) (rt : Route)
        → In be grp
        → In rt be.routes
        → In (location_path rt) (first_paths ++ (reserved grp ++ rest))
    present be rt i j =
        let (_, _, served) = locations_lem grp in
        In-append_right (location_path rt) first_paths (reserved grp ++ rest)
          (elim (served be rt i j) [
            | inl k ↦
                In-append_right (location_path rt) (reserved grp) rest
                  (In-append_left (location_path rt) own last_paths k)
            | inr k ↦ In-append_left (location_path rt) (reserved grp) rest k
          ])
