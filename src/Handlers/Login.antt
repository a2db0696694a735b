-- ===== src/Handlers/Login.antt =====
-- handlers/login.go: the password, LDAP and TOTP pages and the logout. The random id of a new
-- session is an argument, none where the source of randomness fails.
pub mod Laws
pub mod Second
use Prim.Native.String.{◌++◌ as str_append}
use xal_tor_ka.Base.{
  ℕ, zero, suc, ◌+◌, ◌-◌, ◌*◌, ◌/◌, ◌%◌, ◌^◌, ◌≤◌, ◌<◌, String, Char, code, ◌≡◌, refl, sym, ap, ◌∙◌,
  ◌≢◌, ◌↔◌, ◌⊎◌, inl, inr, Bool, true, false, not, ◌&&◌, ◌||◌, Option, none, some, List, [], ◌∷◌,
  ◌++◌, map, arith, ◌==◌, eq_iff, eq_refl, ltb, leb, eqb, if◌then◌else◌, ltb→lt, lt→ltb, leb→le,
  ltb→le, eqb→eq, eqb_refl, Bool-cases, Option-cases, some_eq, is_some, and→both, both→and,
  or→either, length, take, drop, length-append, length-take, length-drop, take-append-drop, any,
  all, keep, In, All, All-append, All-map, All-at, All-of, In-append_left, In-append_right,
  In-append, any→In, In→any, any-eq-false, all→All, keep-In, In-keep, has_prefix, trim_right,
  trim_char, index_char, has_char, trim_space, ne→false, false→ne, last_index_char,
  has_prefix→append, has_prefix-append, trim_char-lacks, len-cons, len-nil, len-cons-pos,
  has_prefix_unique, has_prefix_refl, has_prefix_shorter, eq-nil_of_len, ne-nil_of_len, Dict,
  lookup, insert, delete, has_key, lookup-insert, lookup-insert_self, lookup-delete, dict_laws, ℤ,
  pos, negsuc, sub_ℕ, ltb_ℤ, is_pos, add_clamped,
}
use xal_tor_ka.Models.Identity.{User, Users, Session, SetupToken, SetupState}
use mathlib.Core.Option.{map as option_map}
use xal_tor_ka.Auth.Sessions.{create, complete_2fa, remove}
use xal_tor_ka.Auth.Totp.{verify_totp}
use xal_tor_ka.Auth.Directory.{get_user}
use xal_tor_ka.Providers.Answer.{Identity, Answer, identity, invalid_credentials, unavailable}
use xal_tor_ka.Providers.Local.{authenticate_local}
use xal_tor_ka.Providers.Ldap.{Ldap, LdapNet, authenticate_ldap}
use xal_tor_ka.Handlers.Net.{Request, form_value, field}
use xal_tor_ka.Handlers.Next.{UrlLib, listing, sanitize_next}
use xal_tor_ka.Handlers.Reply.{
  Reply, Response, Page, Cookie, redirect, page, answer, login_page, totp_page, kept, set_session,
  clear_session,
}
use xal_tor_ka.Handlers.Server.{Server, Moment, session, audit_fail}

-- What the handlers use of packages outside: argon2, LDAP and net/url.
pub record Outside : Type 0 where
  pub verify_password : String → String → Bool
  pub ldap_net : LdapNet
  pub url : UrlLib

-- HMAC-SHA1, strings.ToUpper and the Base32 decoding of the secret
pub record Hashes : Type 0 where
  pub hmac_sha1 : List ℕ → List ℕ → List ℕ
  pub to_upper : String → String
  pub base32 : String → Option (List ℕ)

-- the instant, the disk and the random id of one request
pub record Chance : Type 0 where
  pub moment : Moment
  pub id : Option String

unfoldable pub cookie_reply : String → Reply → Response
cookie_reply id r = record { reply = r; cookie = set_session id }

-- s.Sessions.Create
unfoldable pub create_session : Chance → String → String → Server → Option Session × Server
create_session c email provider s =
    let (sess, store) = create c.id c.moment.written c.moment.now email provider s.sessions in
    (sess, record s { sessions = store })

-- s.Sessions.Complete2FA; the answer is not looked at
unfoldable pub complete : Chance → String → Server → Server
complete c id s = record s { sessions = (complete_2fa c.moment.written id s.sessions).1 }

module _ (out : Outside) where
  abbrev pub clean : Server → String → String
  clean s n = sanitize_next out.url s.resolver n

  -- renderHTML of the login page
  unfoldable pub login_again : ℕ → Server → String → String → Response
  login_again status s next err = answer (page status (login_page (clean s next) err))

  -- the part of handleLoginSubmit behind Create: the cookie, and the second factor
  unfoldable pub start_session :
      Chance → String → (Server → Response) → Option Session × Server → Response × Server
  start_session c next failed (none, s) = (failed s, s)
  start_session c next failed (some sess, s) =
      if s.cfg.disable_totp then (cookie_reply sess.id (redirect next), complete c sess.id s) else (
        cookie_reply sess.id
            (redirect (str_append "/login/totp?next=" (out.url.query_escape next))),
        s,
      )

  -- the part of ldapLogin behind a bind
  unfoldable pub start_ldap_session : Chance → String → Option Session × Server → Response × Server
  start_ldap_session c next (none, s) = (login_again 500 s next "err.internal", s)
  start_ldap_session c next (some sess, s) =
      (cookie_reply sess.id (redirect next), complete c sess.id s)

  -- the id of the first provider that accepts the credentials
  unfoldable pub ldap_match : List Ldap → String → String → Option String
  ldap_match [] email password = none
  ldap_match (lp ∷ lps) email password =
      let rest = ldap_match lps email password in
      elim (authenticate_ldap out.ldap_net lp email password) [
        | identity i ↦ some lp.id
        | invalid_credentials ↦ rest
        | unavailable ↦ rest
      ]

  -- ldapLogin, and what handleLoginSubmit does where it answers false
  unfoldable pub ldap_login : Chance → String → String → String → Server → Response × Server
  ldap_login c email password next s = elim (ldap_match s.ldap email password) [
    | some id ↦ start_ldap_session c next (create_session c email id s)
    | none ↦ (
      login_again 401 s next "err.bad_credentials",
      audit_fail "login" (str_append "email=" email) s,
    )
  ]

  unfoldable pub login_with :
      Chance → String → String → String → Server → Answer → Response × Server
  login_with c email password next s (identity i) =
      start_session c next (λ s'. login_again 500 s' next "err.internal")
        (create_session c email "local" s)
  login_with c email password next s invalid_credentials = ldap_login c email password next s
  login_with c email password next s unavailable = (login_again 500 s next "err.internal", s)

  -- handleLoginSubmit
  unfoldable pub handle_login_submit : Chance → Request → Server → Response × Server
  handle_login_submit c r s = elim r.form [
    | none ↦ (login_again 400 s listing "err.bad_request", s)
    | some form ↦
        let email = field "email" form in
        let password = field "password" form in
        login_with c email password (clean s (field "next" form)) s
          (authenticate_local out.verify_password s.users email password)
  ]

  -- handleLoginForm
  unfoldable pub handle_login_form : Request → Server → Response
  handle_login_form r s = login_again 200 s (field "next" r.query) ""

  unfoldable pub totp_again : ℕ → Server → String → String → Response
  totp_again status s next err = answer (page status (totp_page (clean s next) err))

  unfoldable pub back_to_login : Response
  back_to_login = answer (redirect "/login")

  -- handleTOTPForm
  unfoldable pub handle_totp_form : Chance → Request → Server → Response × Server
  handle_totp_form c r s =
      let (sess, s') = session c.moment r s in
      elim sess [
        | none ↦ (back_to_login, s')
        | some x ↦ (totp_again 200 s' (field "next" r.query) "", s')
      ]

  -- code is right for the user of the session; none is a panic
  unfoldable pub code_right : Hashes → Moment → String → Option User → Option Bool
  code_right h t code none = some false
  code_right h t code (some u) =
      verify_totp h.hmac_sha1 h.to_upper h.base32 u.totp_secret code t.now

  -- the part of handleTOTPSubmit behind the check of the code
  unfoldable pub finish_totp : Chance → String → Session → Server → Bool → Response × Server
  finish_totp c next sess s true = (answer (redirect next), complete c sess.id s)
  finish_totp c next sess s false =
      (totp_again 401 s next "err.bad_code", audit_fail "totp" (str_append "email=" sess.email) s)

  unfoldable pub check_totp :
      Hashes → Chance → Request → Option Session × Server → Option (Response × Server)
  check_totp h c r (none, s) = some (back_to_login, s)
  check_totp h c r (some sess, s) = elim r.form [
    | none ↦ some (totp_again 400 s listing "err.bad_request", s)
    | some form ↦
        option_map (finish_totp c (clean s (field "next" form)) sess s)
          (code_right h c.moment (field "code" form) (get_user s.users sess.email))
  ]

  -- handleTOTPSubmit; none is a panic
  unfoldable pub handle_totp_submit :
      Hashes → Chance → Request → Server → Option (Response × Server)
  handle_totp_submit h c r s = check_totp h c r (session c.moment r s)

-- handleLogout
unfoldable pub logout_session : Moment → Option Session × Server → Server
logout_session t (none, s) = s
logout_session t (some sess, s) = record s { sessions = remove t.written sess.id s.sessions }

unfoldable pub handle_logout : Moment → Request → Server → Response × Server
handle_logout t r s =
    (record { reply = redirect "/login"; cookie = clear_session }, logout_session t (session t r s))
