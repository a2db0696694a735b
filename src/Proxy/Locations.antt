-- ===== src/Proxy/Locations.antt =====
-- proxy/generate.go, writeServer: which location blocks stand in the server block of one host. The
-- map `seen` is the list of its keys.
pub mod Laws
pub mod Blocks
use xal_tor_ka.Base.{
  ℕ, zero, suc, ◌+◌, ◌-◌, ◌*◌, ◌/◌, ◌%◌, ◌^◌, ◌≤◌, ◌<◌, String, Char, code, ◌≡◌, refl, sym, ap, ◌∙◌,
  ◌≢◌, ◌↔◌, ◌⊎◌, inl, inr, Bool, true, false, not, ◌&&◌, ◌||◌, Option, none, some, List, [], ◌∷◌,
  ◌++◌, map, arith, ◌==◌, eq_iff, eq_refl, ltb, leb, eqb, if◌then◌else◌, ltb→lt, lt→ltb, leb→le,
  ltb→le, eqb→eq, eqb_refl, Bool-cases, Option-cases, some_eq, is_some, and→both, both→and,
  or→either, length, take, drop, length-append, length-take, length-drop, take-append-drop, any,
  all, keep, In, All, All-append, All-map, All-at, All-of, In-append_left, In-append_right,
  In-append, any→In, In→any, any-eq-false, all→All, keep-In, In-keep, has_prefix, trim_right,
  trim_char, index_char, has_char, trim_space, ne→false, false→ne, last_index_char,
  has_prefix→append, has_prefix-append, trim_char-lacks, len-cons, len-nil, len-cons-pos,
  has_prefix_unique, has_prefix_refl, has_prefix_shorter, eq-nil_of_len, ne-nil_of_len, Dict,
  lookup, insert, delete, has_key, lookup-insert, lookup-insert_self, lookup-delete, dict_laws, ℤ,
  pos, negsuc, sub_ℕ, ltb_ℤ, is_pos, add_clamped,
}
use xal_tor_ka.Models.Services.{
  ProviderCfg, Route, Health, WafCfg, HostingRef, NginxOpts, Backend, Link, Monitor, Services,
}
use xal_tor_ka.Proxy.Group.{location_path, group_uses_auth, group_declares_path}

-- The arguments of writeLocation.
pub record Location : Type 0 where
  pub path : String
  pub route : Route
  pub index : ℕ
  pub options : NginxOpts

abbrev pub gate_paths : List String
gate_paths = "/login" ∷ "/auth/" ∷ "/logout" ∷ "/listing" ∷ "/_xtk/" ∷ []

-- the paths that the gate keeps for its own pages
unfoldable pub reserved : List Backend → List String
reserved grp =
    if group_uses_auth grp
    then (if group_declares_path grp "/admin" then gate_paths else gate_paths ++ ("/admin" ∷ []))
    else []

-- What the loops leave behind: the blocks, the paths seen and the next index.
pub record Written : Type 0 where
  pub blocks : List Location
  pub seen : List String
  pub next : ℕ

abbrev pub is_seen : List String → String → Bool
is_seen seen p = any (λ q. q == p) seen

abbrev pub block : ℕ → NginxOpts → Route → Location
block idx n rt = record { path = location_path rt; route = rt; index = idx; options = n }

-- the loop over the routes of one member
unfoldable pub write_routes : NginxOpts → List String → ℕ → List Route → Written
write_routes n seen idx [] = record { blocks = []; seen = seen; next = idx }
write_routes n seen idx (rt ∷ rts) =
    let skipped = write_routes n seen idx rts in
    let rest = write_routes n (location_path rt ∷ seen) (suc idx) rts in
    if is_seen seen (location_path rt)
    then skipped
    else record rest { blocks = block idx n rt ∷ rest.blocks }

-- the loop over the members of the group
unfoldable pub write_members : List String → ℕ → List Backend → Written
write_members seen idx [] = record { blocks = []; seen = seen; next = idx }
write_members seen idx (be ∷ bes) =
    let one = write_routes be.nginx seen idx be.routes in
    let rest = write_members one.seen one.next bes in
    record rest { blocks = one.blocks ++ rest.blocks }

unfoldable pub locations : List Backend → List Location
locations grp = (write_members (reserved grp) 0 grp).blocks

-- the blocks that every server block has: the two before the gate's pages and the two at its end
abbrev pub first_paths : List String
first_paths = "/.well-known/acme-challenge/" ∷ "= /__auth" ∷ []

abbrev pub last_paths : List String
last_paths = "@login" ∷ "@forbidden" ∷ []

-- What stands behind the word "location" of every block of the server block, in their order.
unfoldable pub location_paths : List Backend → List String
location_paths grp =
    first_paths ++ (reserved grp ++ (map (λ l. l.path) (locations grp) ++ last_paths))
