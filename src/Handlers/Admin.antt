-- ===== src/Handlers/Admin.antt =====
-- handlers/admin.go: what every edit of the administration goes through, the guard, the edit of
-- services.json with its reload, the edit of users.json, and the answer. What the disk, the proxy
-- and the random source do in one request is an argument. Children: the edits and their laws.
pub mod Saved
pub mod Links
pub mod Users
pub mod Upstream
pub mod Grants
pub mod Form
pub mod Backends
pub mod Networks
pub mod Scan
pub mod Ids
use xal_tor_ka.Base.{
  ℕ, zero, suc, ◌+◌, ◌-◌, ◌*◌, ◌/◌, ◌%◌, ◌^◌, ◌≤◌, ◌<◌, String, Char, code, ◌≡◌, refl, sym, ap, ◌∙◌,
  ◌≢◌, ◌↔◌, ◌⊎◌, inl, inr, Bool, true, false, not, ◌&&◌, ◌||◌, Option, none, some, List, [], ◌∷◌,
  ◌++◌, map, arith, ◌==◌, eq_iff, eq_refl, ltb, leb, eqb, if◌then◌else◌, ltb→lt, lt→ltb, leb→le,
  ltb→le, eqb→eq, eqb_refl, Bool-cases, Option-cases, some_eq, is_some, and→both, both→and,
  or→either, length, take, drop, length-append, length-take, length-drop, take-append-drop, any,
  all, keep, In, All, All-append, All-map, All-at, All-of, In-append_left, In-append_right,
  In-append, any→In, In→any, any-eq-false, all→All, keep-In, In-keep, has_prefix, trim_right,
  trim_char, index_char, has_char, trim_space, ne→false, false→ne, last_index_char,
  has_prefix→append, has_prefix-append, trim_char-lacks, len-cons, len-nil, len-cons-pos,
  has_prefix_unique, has_prefix_refl, has_prefix_shorter, eq-nil_of_len, ne-nil_of_len, Dict,
  lookup, insert, delete, has_key, lookup-insert, lookup-insert_self, lookup-delete, dict_laws, ℤ,
  pos, negsuc, sub_ℕ, ltb_ℤ, is_pos, add_clamped,
}
use xal_tor_ka.Models.Services.{
  ProviderCfg, Route, Health, WafCfg, HostingRef, NginxOpts, Backend, Link, Monitor, Services,
}
use xal_tor_ka.Models.Identity.{User}
use xal_tor_ka.Models.Grants.{canonicalize_rules}
use xal_tor_ka.Auth.Directory.{all_users, replace}
use xal_tor_ka.Handlers.Net.{NetLib, Request}
use xal_tor_ka.Handlers.Next.{UrlLib}
use xal_tor_ka.Handlers.Reply.{
  Reply, Response, Page, Refusal, redirect, page, answer, error_page, refusal_page, failed_outside,
}
use xal_tor_ka.Handlers.Server.{Server, Moment}
use xal_tor_ka.Handlers.Services.{reload}
use xal_tor_ka.Handlers.Gate.{admin_guard}

-- `torn` is what a write of services.json that fails leaves there, since it is written in place.
-- `paths_saved` is the second write of users.json in one request. `hash_password`, `new_secret`
-- and `draws_qr` are none and false where the program gets an error. `room` is the number of free
-- places behind the grants of a user in memory.
pub record Effects : Type 0 where
  pub moment : Moment
  pub services_saved : Bool
  pub torn : Option Services
  pub applied : Bool
  pub users_saved : Bool
  pub paths_saved : Bool
  pub hash_password : String → Option String
  pub new_secret : Option String
  pub draws_qr : Bool
  pub room : String → ℕ

-- what the function given to mutateServices and mutateUsers returns
pub data Edited (A : Type 0) : Type 0 where
  refused : Refusal → Edited A
  edited : A → Edited A

-- config.LoadServices
unfoldable pub load_services : Server → Option Services
load_services s = elim s.services_file [
  | none ↦ none
  | some svc ↦ some (record svc { backends = canonicalize_rules svc.backends })
]

-- config.SaveServices and Reload; none is no error
unfoldable pub save_services : Effects → Services → Server → Option Refusal × Server
save_services e svc s =
    let saved = record s { services_file = some svc } in
    let (ok, reloaded) = reload (load_services saved) e.applied saved in
    if not e.services_saved
    then (some failed_outside, record s { services_file = e.torn })
    else if ok
    then (none, reloaded)
    else (some failed_outside, reloaded)

unfoldable pub save_edited : Effects → Edited Services → Server → Option Refusal × Server
save_edited e (refused why) s = (some why, s)
save_edited e (edited svc) s = save_services e svc s

-- mutateServices
unfoldable pub mutate_services :
    Effects → (Services → Edited Services) → Server → Option Refusal × Server
mutate_services e fn s = elim (load_services s) [
  | none ↦ (some failed_outside, s)
  | some svc ↦ save_edited e (fn svc) s
]

-- config.SaveUsers and Replace
unfoldable pub save_users : Bool → Edited (List User) → Server → Option Refusal × Server
save_users ok (refused why) s = (some why, s)
save_users ok (edited us) s =
    if ok
    then (none, record s { users_file = us; users = replace s.users us })
    else (some failed_outside, s)

-- mutateUsers, for a function that changes no list the directory holds
unfoldable pub mutate_users :
    Bool → (List User → Edited (List User)) → Server → Option Refusal × Server
mutate_users ok fn s = save_users ok (fn (all_users s.users)) s

-- The page to go back to: the one the administrator came from, if it renders without a query.
unfoldable pub return_path : UrlLib → Request → String
return_path url r = if r.referer == "" then "/admin/servizi" else elim (url.url_path r.referer) [
  | none ↦ "/admin/servizi"
  | some p ↦
      if has_prefix p "/admin" && not (p == "/admin/backend/edit") then p else "/admin/servizi"
]

-- afterMutation
unfoldable pub after_mutation : UrlLib → Request → Option Refusal → Response
after_mutation url r (some why) = answer (page 400 (refusal_page why))
after_mutation url r none = answer (redirect (return_path url r))

-- idTaken
unfoldable pub id_taken : Server → Services → String → Bool
id_taken s svc id =
    any (λ b. b.id == id) s.base_backends
    || any (λ b. b.id == id) svc.backends
    || any (λ l. l.id == id) svc.links

unfoldable pub bad_request : String → Response
bad_request key = answer (page 400 (error_page key))

-- if !s.adminGuard(w, r) { return }
unfoldable pub guarded :
    NetLib
    → UrlLib
    → Effects
    → (Request → Server → Response × Server)
    → Request
    → Server
    → Response × Server
guarded net url e handler r s =
    let (stop, s') = admin_guard net url e.moment r s in
    elim stop [ some answered ↦ (answered, s') | none ↦ handler r s' ]

-- mutateServices and afterMutation
unfoldable pub edit_services :
    UrlLib → Effects → (Services → Edited Services) → Request → Server → Response × Server
edit_services url e fn r s =
    let (err, s') = mutate_services e fn s in (after_mutation url r err, s')

-- mutateUsers and afterMutation
unfoldable pub edit_users :
    UrlLib → Effects → (List User → Edited (List User)) → Request → Server → Response × Server
edit_users url e fn r s =
    let (err, s') = mutate_users e.users_saved fn s in (after_mutation url r err, s')
