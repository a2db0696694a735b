-- ===== src/Handlers/Gate.antt =====
-- handlers/adminauth.go: who reaches the administration. `none` is a request that goes on to its
-- handler, and `some` the answer that ends it.
pub mod Laws
pub mod Kept
use Prim.Native.String.{◌++◌ as str_append}
use xal_tor_ka.Base.{
  ℕ, zero, suc, ◌+◌, ◌-◌, ◌*◌, ◌/◌, ◌%◌, ◌^◌, ◌≤◌, ◌<◌, String, Char, code, ◌≡◌, refl, sym, ap, ◌∙◌,
  ◌≢◌, ◌↔◌, ◌⊎◌, inl, inr, Bool, true, false, not, ◌&&◌, ◌||◌, Option, none, some, List, [], ◌∷◌,
  ◌++◌, map, arith, ◌==◌, eq_iff, eq_refl, ltb, leb, eqb, if◌then◌else◌, ltb→lt, lt→ltb, leb→le,
  ltb→le, eqb→eq, eqb_refl, Bool-cases, Option-cases, some_eq, is_some, and→both, both→and,
  or→either, length, take, drop, length-append, length-take, length-drop, take-append-drop, any,
  all, keep, In, All, All-append, All-map, All-at, All-of, In-append_left, In-append_right,
  In-append, any→In, In→any, any-eq-false, all→All, keep-In, In-keep, has_prefix, trim_right,
  trim_char, index_char, has_char, trim_space, ne→false, false→ne, last_index_char,
  has_prefix→append, has_prefix-append, trim_char-lacks, len-cons, len-nil, len-cons-pos,
  has_prefix_unique, has_prefix_refl, has_prefix_shorter, eq-nil_of_len, ne-nil_of_len, Dict,
  lookup, insert, delete, has_key, lookup-insert, lookup-insert_self, lookup-delete, dict_laws, ℤ,
  pos, negsuc, sub_ℕ, ltb_ℤ, is_pos, add_clamped,
}
use xal_tor_ka.Models.Identity.{User, Users, Session, SetupToken, SetupState}
use xal_tor_ka.Auth.Directory.{get_user}
use xal_tor_ka.Handlers.Net.{NetLib, Request}
use xal_tor_ka.Handlers.Next.{UrlLib}
use xal_tor_ka.Handlers.Reply.{
  Reply, Response, Page, redirect, page, answer, error_page, forbidden_admin_page,
}
use xal_tor_ka.Handlers.Server.{Server, Moment, session, audit_fail, admin_allowed}

unfoldable pub to_login : UrlLib → Request → Response
to_login url r = answer (redirect (str_append "/login?next=" (url.query_escape r.path)))

unfoldable pub is_admin : Option User → Bool
is_admin none = false
is_admin (some u) = u.admin

unfoldable pub admin_denied : Session → Server → Option Response × Server
admin_denied sess s = (
  some (answer (page 403 (forbidden_admin_page sess.email))),
  audit_fail "admin_denied" (str_append "email=" sess.email) s,
)

-- the part of adminSessionOK behind the session
unfoldable pub check_admin : UrlLib → Request → Option Session → Server → Option Response × Server
check_admin url r none s = (some (to_login url r), s)
check_admin url r (some sess) s =
    if not sess.two_fa_done
    then (some (to_login url r), s)
    else if is_admin (get_user s.users sess.email)
    then (none, s)
    else admin_denied sess s

-- adminSessionOK
unfoldable pub admin_session_ok :
    NetLib → UrlLib → Moment → Request → Server → Option Response × Server
admin_session_ok net url t r s =
    if not (admin_allowed net r s)
    then (some (answer (page 403 (error_page "err.forbidden"))), audit_fail "admin_ip" "" s)
    else let (sess, s') = session t r s in check_admin url r sess s'

-- the form of the request, for one that the session lets through
unfoldable pub check_form : Request → Option Response × Server → Option Response × Server
check_form r (some answered, s) = (some answered, s)
check_form r (none, s) = elim r.form [
  | none ↦ (some (answer (page 400 (error_page "err.bad_request"))), s)
  | some form ↦ (none, s)
]

-- adminGuard
unfoldable pub admin_guard : NetLib → UrlLib → Moment → Request → Server → Option Response × Server
admin_guard net url t r s = check_form r (admin_session_ok net url t r s)
