-- ===== src/Proxy/Group.antt =====
-- proxy/generate.go: the backends of one host, their order, and what they need of the gate.
pub mod Laws
use Prim.Native.String
use Prim.Native.String.{[] as empty, ◌∷◌ as char_cons}
use xal_tor_ka.Base.{
  ℕ, zero, suc, ◌+◌, ◌-◌, ◌*◌, ◌/◌, ◌%◌, ◌^◌, ◌≤◌, ◌<◌, String, Char, code, ◌≡◌, refl, sym, ap, ◌∙◌,
  ◌≢◌, ◌↔◌, ◌⊎◌, inl, inr, Bool, true, false, not, ◌&&◌, ◌||◌, Option, none, some, List, [], ◌∷◌,
  ◌++◌, map, arith, ◌==◌, eq_iff, eq_refl, ltb, leb, text_ltb, eqb, if◌then◌else◌, ltb→lt, lt→ltb,
  leb→le, ltb→le, eqb→eq, eqb_refl, Bool-cases, Option-cases, some_eq, is_some, and→both, both→and,
  or→either, length, take, drop, length-append, length-take, length-drop, take-append-drop, any,
  all, keep, In, All, All-append, All-map, All-at, All-of, In-append_left, In-append_right,
  In-append, any→In, In→any, any-eq-false, all→All, keep-In, In-keep, has_prefix, trim_right,
  trim_char, index_char, has_char, trim_space, ne→false, false→ne, last_index_char,
  has_prefix→append, has_prefix-append, trim_char-lacks, len-cons, len-nil, len-cons-pos,
  has_prefix_unique, has_prefix_refl, has_prefix_shorter, eq-nil_of_len, ne-nil_of_len, Dict,
  lookup, insert, delete, has_key, lookup-insert, lookup-insert_self, lookup-delete, dict_laws, ℤ,
  pos, negsuc, sub_ℕ, ltb_ℤ, is_pos, add_clamped,
}
use xal_tor_ka.Models.Services.{
  ProviderCfg, Route, Health, WafCfg, HostingRef, NginxOpts, Backend, Link, Monitor, Services,
}

-- sort.SliceStable by ID
unfoldable pub insert_by_id : Backend → List Backend → List Backend
insert_by_id be [] = be ∷ []
insert_by_id be (b ∷ bs) =
    let behind = insert_by_id be bs in if text_ltb b.id be.id then b ∷ behind else be ∷ b ∷ bs

unfoldable pub sort_by_id : List Backend → List Backend
sort_by_id [] = []
sort_by_id (b ∷ bs) = insert_by_id b (sort_by_id bs)

-- ownsRoot
unfoldable pub owns_root : Backend → Bool
owns_root be = any (λ rt. rt.path == "/" || rt.path == "") be.routes

-- the swap with the first backend behind `first` that owns the root
unfoldable pub swap_root : Backend → List Backend → Option (Backend × List Backend)
swap_root first [] = none
swap_root first (b ∷ bs) =
    let found : Option (Backend × List Backend) = elim (swap_root first bs) [
      | none ↦ none
      | some (root, others) ↦ some (root, b ∷ others)
    ] in
    if owns_root b then some (b, first ∷ bs) else found

unfoldable pub bring_root : List Backend → List Backend
bring_root [] = []
bring_root (b ∷ bs) =
    if owns_root b
    then b ∷ bs
    else elim (swap_root b bs) [ none ↦ b ∷ bs | some (root, others) ↦ root ∷ others ]

-- orderGroup
unfoldable pub order_group : List Backend → List Backend
order_group grp = bring_root (sort_by_id grp)

-- backendUsesAuth
unfoldable pub backend_uses_auth : Backend → Bool
backend_uses_auth be = any (λ rt. not (rt.rule == "public")) be.routes

-- groupUsesAuth
unfoldable pub group_uses_auth : List Backend → Bool
group_uses_auth grp = any backend_uses_auth grp

unfoldable pub location_path : Route → String
location_path rt = if rt.path == "" then "/" else rt.path

-- groupDeclaresPath
unfoldable pub group_declares_path : List Backend → String → Bool
group_declares_path grp path = any (λ be. any (λ rt. location_path rt == path) be.routes) grp
