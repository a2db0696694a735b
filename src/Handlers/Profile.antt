-- ===== src/Handlers/Profile.antt =====
-- handlers/profile.go: a user's own password and second factor. The page itself is text.
pub mod Laws
use Prim.Native.String.{◌++◌ as str_append}
use xal_tor_ka.Base.{
  ℕ, zero, suc, ◌+◌, ◌-◌, ◌*◌, ◌/◌, ◌%◌, ◌^◌, ◌≤◌, ◌<◌, String, Char, code, ◌≡◌, refl, sym, ap, ◌∙◌,
  ◌≢◌, ◌↔◌, ◌⊎◌, inl, inr, Bool, true, false, not, ◌&&◌, ◌||◌, Option, none, some, List, [], ◌∷◌,
  ◌++◌, map, arith, ◌==◌, eq_iff, eq_refl, ltb, leb, eqb, if◌then◌else◌, ltb→lt, lt→ltb, leb→le,
  ltb→le, eqb→eq, eqb_refl, Bool-cases, Option-cases, some_eq, is_some, and→both, both→and,
  or→either, length, take, drop, length-append, length-take, length-drop, take-append-drop, any,
  all, keep, In, All, All-append, All-map, All-at, All-of, In-append_left, In-append_right,
  In-append, any→In, In→any, any-eq-false, all→All, keep-In, In-keep, has_prefix, trim_right,
  trim_char, index_char, has_char, trim_space, ne→false, false→ne, last_index_char,
  has_prefix→append, has_prefix-append, trim_char-lacks, len-cons, len-nil, len-cons-pos,
  has_prefix_unique, has_prefix_refl, has_prefix_shorter, eq-nil_of_len, ne-nil_of_len, Dict,
  lookup, insert, delete, has_key, lookup-insert, lookup-insert_self, lookup-delete, dict_laws, ℤ,
  pos, negsuc, sub_ℕ, ltb_ℤ, is_pos, add_clamped,
}
use xal_tor_ka.Models.Identity.{User, Users, Session, SetupToken, SetupState}
use xal_tor_ka.Auth.Directory.{get_user}
use xal_tor_ka.Handlers.Net.{Request, form_value}
use xal_tor_ka.Handlers.Reply.{
  Reply, Response, Page, redirect, page, answer, error_page, profile_qr_page,
}
use xal_tor_ka.Handlers.Server.{Server, session, audit_fail}
use xal_tor_ka.Handlers.Admin.{Effects, mutate_users}
use xal_tor_ka.Handlers.Admin.Users.{change_user, internal_error}

-- the user of a session that is past the second factor
unfoldable pub user_of : Option Session → Server → Option User
user_of none s = none
user_of (some sess) s = if sess.two_fa_done then get_user s.users sess.email else none

-- currentUser
unfoldable pub current_user : Effects → Request → Server → Option User × Server
current_user e r s = let (sess, s') = session e.moment r s in (user_of sess s', s')

unfoldable pub to_profile_login : Response
to_profile_login = answer (redirect "/login?next=/profilo")

unfoldable pub profile_error : Response
profile_error = answer (redirect "/profilo?err=pw")

-- the write of the new password
unfoldable pub write_password : Effects → User → String → Server → Response × Server
write_password e u hash s =
    let set : User → User = (λ v. record v { password_hash = hash }) in
    let (err, s') = mutate_users e.users_saved (change_user u.email set) s in
    elim err [ some why ↦ (internal_error, s') | none ↦ (answer (redirect "/profilo?ok=pw"), s') ]

-- the part behind the check of the current password
unfoldable pub new_password : Effects → Request → User → Server → Response × Server
new_password e r u s =
    if form_value r "password" == ""
    then (profile_error, s)
    else elim (e.hash_password (form_value r "password")) [
      | none ↦ (internal_error, s)
      | some hash ↦ write_password e u hash s
    ]

module _ (verify_password : String → String → Bool) (e : Effects) where
  unfoldable pub change_password : Request → User → Server → Response × Server
  change_password r u s =
      let denied = audit_fail "profile_pw" (str_append "email=" u.email) s in
      if not (u.provider == "local")
      then (answer (redirect "/profilo?err=local"), s)
      else elim r.form [
        | none ↦ (profile_error, s)
        | some form ↦
            if not (verify_password u.password_hash (form_value r "current"))
            then (profile_error, denied)
            else new_password e r u s
      ]

  -- handleProfilePassword
  unfoldable pub handle_profile_password : Request → Server → Response × Server
  handle_profile_password r s =
      let (found, s') = current_user e r s in
      elim found [ none ↦ (to_profile_login, s') | some u ↦ change_password r u s' ]

unfoldable pub write_secret : Effects → User → String → Server → Response × Server
write_secret e u secret s =
    let set : User → User = (λ v. record v { totp_secret = secret }) in
    let (err, s') = mutate_users e.users_saved (change_user u.email set) s in
    elim err [
      | some why ↦ (internal_error, s')
      | none ↦ (
        (if e.draws_qr
            then answer (page 200 (profile_qr_page secret))
            else answer (page 500 (error_page "err.qr"))),
        s',
      )
    ]

-- handleProfileTOTP
unfoldable pub handle_profile_totp : Effects → Request → Server → Response × Server
handle_profile_totp e r s =
    let (found, s') = current_user e r s in
    elim found [
      | none ↦ (to_profile_login, s')
      | some u ↦ elim e.new_secret [
        | none ↦ (internal_error, s')
        | some secret ↦ write_secret e u secret s'
      ]
    ]
