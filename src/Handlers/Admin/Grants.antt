-- ===== src/Handlers/Admin/Grants.antt =====
-- handlers/admin.go: the grants that the form of a service writes back. Both functions filter the
-- grants of a user in place, in the array that the directory's own copy of the user shows: what the
-- directory holds where the write of users.json then fails is modelled, as `shown`.
pub mod Laws
use Prim.Native.String.{◌++◌ as str_append}
use xal_tor_ka.Base.{
  sort_texts, ℕ, zero, suc, ◌+◌, ◌-◌, ◌*◌, ◌/◌, ◌%◌, ◌^◌, ◌≤◌, ◌<◌, String, Char, code, ◌≡◌, refl,
  sym, ap, ◌∙◌, ◌≢◌, ◌↔◌, ◌⊎◌, inl, inr, Bool, true, false, not, ◌&&◌, ◌||◌, Option, none, some,
  List, [], ◌∷◌, ◌++◌, map, arith, ◌==◌, eq_iff, eq_refl, ltb, leb, eqb, if◌then◌else◌, ltb→lt,
  lt→ltb, leb→le, ltb→le, eqb→eq, eqb_refl, Bool-cases, Option-cases, some_eq, is_some, and→both,
  both→and, or→either, length, take, drop, length-append, length-take, length-drop,
  take-append-drop, any, all, keep, In, All, All-append, All-map, All-at, All-of, In-append_left,
  In-append_right, In-append, any→In, In→any, any-eq-false, all→All, keep-In, In-keep, has_prefix,
  trim_right, trim_char, index_char, has_char, trim_space, ne→false, false→ne, last_index_char,
  has_prefix→append, has_prefix-append, trim_char-lacks, len-cons, len-nil, len-cons-pos,
  has_prefix_unique, has_prefix_refl, has_prefix_shorter, eq-nil_of_len, ne-nil_of_len, Dict,
  lookup, insert, delete, has_key, lookup-insert, lookup-insert_self, lookup-delete, dict_laws, ℤ,
  pos, negsuc, sub_ℕ, ltb_ℤ, is_pos, add_clamped,
}
use xal_tor_ka.Models.Identity.{User, Users, Session, SetupToken, SetupState}
use xal_tor_ka.Models.Grants.{grant_id}
use xal_tor_ka.Auth.Directory.{UserDirectory, all_users}
use xal_tor_ka.Handlers.Net.{Request, form_value, form_list}
use xal_tor_ka.Handlers.Reply.{Refusal, failed_outside}
use xal_tor_ka.Handlers.Server.{Server}
use xal_tor_ka.Handlers.Admin.{Effects, edited, save_users}

-- The old array where `written` stands at its front: a slice that was there before shows it.
unfoldable pub overwritten : List String → List String → List String
overwritten written old = take (length old) (written ++ drop (length written) old)

unfoldable pub with_grants : List String → User → User
with_grants grants u = record u { backends = grants }

-- what the directory shows of its users, after their grants have been written in place
unfoldable pub show_grants : (User → List String) → UserDirectory → UserDirectory
show_grants shown d = record { by_email = map (λ k. (k.0, with_grants (shown k.1) k.1)) d.by_email }

-- mutateUsers for a loop that gives each user the grants `after`, in place as far as `shown` says
unfoldable pub mutate_grants :
    Bool → (User → List String) → (User → List String) → Server → Option Refusal × Server
mutate_grants ok after shown s =
    if ok
    then save_users true (edited (map (λ u. with_grants (after u) u) (all_users s.users))) s
    else (some failed_outside, record s { users = show_grants shown s.users })

unfoldable pub has_grant : String → User → Bool
has_grant id u = any (λ g. g == id) u.backends

unfoldable pub without_grant : String → User → List String
without_grant id u = keep (λ g. not (g == id)) u.backends

-- the body of the loop of applyServiceGrants
unfoldable pub service_grants : List String → String → User → List String
service_grants enabled id u =
    let on = any (λ email. email == u.email) enabled in
    if on && not (has_grant id u)
    then u.backends ++ (id ∷ [])
    else if not on && has_grant id u
    then without_grant id u
    else u.backends

-- What the old slice shows after it: an append writes behind its end, the filter writes in place.
unfoldable pub service_shown : List String → String → User → List String
service_shown enabled id u =
    let on = any (λ email. email == u.email) enabled in
    if not on && has_grant id u then overwritten (without_grant id u) u.backends else u.backends

-- applyServiceGrants
unfoldable pub apply_service_grants : Effects → Request → String → Server → Option Refusal × Server
apply_service_grants e r id s =
    let enabled = form_list r "svcuser" in
    if form_value r "svcuser_sent" == ""
    then (none, s)
    else mutate_grants e.users_saved (service_grants enabled id) (service_shown enabled id) s

unfoldable pub is_path_grant : String → String → Bool
is_path_grant id g = has_prefix g (str_append id "#")

-- the grants that are not on a path of the service
unfoldable pub kept_grants : String → User → List String
kept_grants id u = keep (λ g. not (is_path_grant id g)) u.backends

-- want[u.Email]: the paths of the form are keys of a map and none is empty, so no grant comes twice
unfoldable pub wanted_grants : String → Dict (List String) → User → List String
wanted_grants id [] u = []
wanted_grants id ((path, emails) ∷ others) u =
    let rest = wanted_grants id others u in
    if any (λ email. email == u.email) emails then grant_id id path ∷ rest else rest

-- the body of the loop of applyPathGrants
unfoldable pub path_grants_after : String → Dict (List String) → User → List String
path_grants_after id grants u = sort_texts (kept_grants id u ++ wanted_grants id grants u)

-- What the old slice shows: with `room` free places behind it, all is written and sorted in place,
-- and otherwise the array is left, unsorted, where it is full.
unfoldable pub path_shown : (String → ℕ) → String → Dict (List String) → User → List String
path_shown room id grants u =
    let all_now = kept_grants id u ++ wanted_grants id grants u in
    if leb (length all_now) (length u.backends + room u.email)
    then overwritten (sort_texts all_now) u.backends
    else overwritten all_now u.backends

-- applyPathGrants
unfoldable pub apply_path_grants :
    Effects → String → Dict (List String) → Server → Option Refusal × Server
apply_path_grants e id grants s =
    mutate_grants e.paths_saved (path_grants_after id grants) (path_shown e.room id grants) s
