-- ===== src/Proxy/Locations/Laws.antt =====
-- proxy/generate.go, writeServer: no path has two blocks, and every route has one.
use xal_tor_ka.Base.{
  ℕ, suc, String, ◌≡◌, refl, sym, ap, ◌⊎◌, inl, inr, true, false, List, [], ◌∷◌, ◌++◌, map, ◌==◌,
  eq_iff, eq_refl, Bool-cases, any, In, any→In, In→any, false→ne, Adds, Distinct, Adds-new,
  Adds-append, Adds-In, Adds-keeps,
}
use xal_tor_ka.Models.Services.{Route, NginxOpts, Backend}
use mathlib.Core.Path.{subst}
use xal_tor_ka.Proxy.Group.{location_path, group_uses_auth, group_declares_path}
use xal_tor_ka.Proxy.Locations.{
  Location, gate_paths, reserved, Written, is_seen, write_routes, write_members, locations,
}

abbrev pub paths : List Location → List String
paths ls = map (λ l. l.path) ls

seen-In : (seen : List String) (p : String) → is_seen seen p ≡ true → In p seen
seen-In seen p h =
    let (q, i, e) = any→In (λ q. q == p) seen h in subst (λ x. In x seen) ((eq_iff q p).0 e) i

unseen→new : (seen : List String) (p : String) → is_seen seen p ≡ false → ¬ In p seen
unseen→new seen p h i = let k = In→any (λ q. q == p) p seen i (eq_refl p) in cc

pub map-append : (xs ys : List Location) → paths (xs ++ ys) ≡ paths xs ++ paths ys
map-append [] ys = refl
map-append (x ∷ xs) ys = ap (λ l. x.path ∷ l) (map-append xs ys)

-- The blocks are new, the routes are seen, and each block is for a route with its own path.
record Wrote (n : NginxOpts) (seen : List String) (rts : List Route) (w : Written) : Type 0 where
  adds : Adds (paths w.blocks) seen w.seen
  covers : (rt : Route) → In rt rts → In (location_path rt) w.seen

write_routes-Wrote :
    (n : NginxOpts) (seen : List String) (idx : ℕ) (rts : List Route)
    → Wrote n seen rts (write_routes n seen idx rts)
unfolding write_routes
write_routes-Wrote n seen idx [] = record { adds = refl; covers = (λ rt i. elim i [ ]) }
write_routes-Wrote n seen idx (rt ∷ rts) = elim (Bool-cases (is_seen seen (location_path rt))) [
  | inl e ↦
      let w = write_routes-Wrote n seen idx rts in
      rw e (record {
        adds = w.adds;
        covers = (λ r i. elim i [
          | inl q ↦
              Adds-keeps _ seen _ (location_path r) w.adds
                (rw q (seen-In seen (location_path rt) e))
          | inr k ↦ w.covers r k
        ]);
      })
  | inr e ↦
      let w = write_routes-Wrote n (location_path rt ∷ seen) (suc idx) rts in
      rw e (record {
        adds = (unseen→new seen (location_path rt) e, w.adds);
        covers = (λ r i. elim i [
          | inl q ↦
              Adds-keeps _ (location_path rt ∷ seen) _ (location_path r) w.adds
                (inl (ap location_path q))
          | inr k ↦ w.covers r k
        ]);
      })
]

-- The same for all members.
record WroteAll (seen : List String) (bes : List Backend) (w : Written) : Type 0 where
  adds : Adds (paths w.blocks) seen w.seen
  covers : (be : Backend) (rt : Route) → In be bes → In rt be.routes → In (location_path rt) w.seen

write_members-WroteAll :
    (seen : List String) (idx : ℕ) (bes : List Backend)
    → WroteAll seen bes (write_members seen idx bes)
unfolding write_members
write_members-WroteAll seen idx [] = record { adds = refl; covers = (λ be rt i j. elim i [ ]) }
write_members-WroteAll seen idx (be ∷ bes) =
    let one = write_routes be.nginx seen idx be.routes in
    let w = write_routes-Wrote be.nginx seen idx be.routes in
    let rest = write_members-WroteAll one.seen one.next bes in
    record {
      adds =
          subst (λ l. Adds l seen (write_members one.seen one.next bes).seen)
            (sym (map-append one.blocks (write_members one.seen one.next bes).blocks))
            (Adds-append _ _ seen one.seen _ w.adds rest.adds);
      covers = (λ b rt i j. elim i [
        | inl q ↦
            Adds-keeps _ one.seen _ (location_path rt) rest.adds
              (w.covers rt (subst (λ x. In rt x.routes) q j))
        | inr k ↦ rest.covers b rt k j
      ]);
    }

-- On one host no path has two location blocks: the blocks of the services have different paths, and
-- none of them has a path that the gate keeps for its own pages. Every route of every service is
-- served by a block of its path, its own or an earlier service's, or by the gate's page there.
pub locations_lem :
    (grp : List Backend)
    → Distinct (paths (locations grp))
      × ((p : String) → In p (paths (locations grp)) → ¬ In p (reserved grp))
      × ((be : Backend) (rt : Route)
          → In be grp
          → In rt be.routes
          → In (location_path rt) (paths (locations grp)) ⊎ In (location_path rt) (reserved grp))
unfolding locations
locations_lem grp =
    let w = write_members-WroteAll (reserved grp) 0 grp in
    let (apart, new) = Adds-new _ (reserved grp) _ w.adds in
    (
      apart,
      new,
      (λ be rt i j. Adds-In _ (reserved grp) _ (location_path rt) w.adds (w.covers be rt i j)),
    )

declares-path :
    (grp : List Backend) (path : String) (be : Backend) (rt : Route)
    → In be grp
    → In rt be.routes
    → location_path rt ≡ path
    → group_declares_path grp path ≡ true
unfolding group_declares_path
declares-path grp path be rt i j e =
    In→any (λ b. any (λ r. location_path r == path) b.routes) be grp i
      (In→any (λ r. location_path r == path) rt be.routes j ((eq_iff (location_path rt) path).1 e))

not_reserved_admin :
    (grp : List Backend) → group_declares_path grp "/admin" ≡ true → ¬ In "/admin" (reserved grp)
unfolding reserved
not_reserved_admin grp h i = elim (Bool-cases (group_uses_auth grp)) [
  | inl e ↦ no_gate_admin (rw (e, h) at i)
  | inr e ↦ elim (rw e at i) [ ]
]
  where
    apart : (s : String) → (s == "/admin") ≡ false → "/admin" ≡ s → ⊥
    apart s f e = false→ne s "/admin" f (sym e)

    no_gate_admin : ¬ In "/admin" gate_paths
    no_gate_admin (inl e) = apart "/login" refl e
    no_gate_admin (inr (inl e)) = apart "/auth/" refl e
    no_gate_admin (inr (inr (inl e))) = apart "/logout" refl e
    no_gate_admin (inr (inr (inr (inl e)))) = apart "/listing" refl e
    no_gate_admin (inr (inr (inr (inr (inl e))))) = apart "/_xtk/" refl e
    no_gate_admin (inr (inr (inr (inr (inr i))))) = elim i [ ]

-- A service that declares the path /admin gets a block for it: the gate then keeps off that path.
pub admin_yields :
    (grp : List Backend) (be : Backend) (rt : Route)
    → In be grp
    → In rt be.routes
    → location_path rt ≡ "/admin"
    → In "/admin" (paths (locations grp))
admin_yields grp be rt i j e =
    let (_, _, served) = locations_lem grp in
    elim (served be rt i j) [
      | inl k ↦ subst (λ p. In p (paths (locations grp))) e k
      | inr k ↦ absurd (
          not_reserved_admin grp (declares-path grp "/admin" be rt i j e)
            (subst (λ p. In p (reserved grp)) e k))
    ]
