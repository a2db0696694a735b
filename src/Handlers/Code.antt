-- ===== src/Handlers/Code.antt =====
-- handlers/otp.go: the login by a one-time code. The queue file is the list of its lines, each with
-- the address and the code; where a code is spooled, the disk decides whether the line is written.
pub mod Laws
use Prim.Native.String.{◌++◌ as str_append}
use xal_tor_ka.Base.{
  ℕ, zero, suc, ◌+◌, ◌-◌, ◌*◌, ◌/◌, ◌%◌, ◌^◌, ◌≤◌, ◌<◌, String, Char, code, ◌≡◌, refl, sym, ap, ◌∙◌,
  ◌≢◌, ◌↔◌, ◌⊎◌, inl, inr, Bool, true, false, not, ◌&&◌, ◌||◌, Option, none, some, List, [], ◌∷◌,
  ◌++◌, map, arith, ◌==◌, eq_iff, eq_refl, ltb, leb, eqb, if◌then◌else◌, ltb→lt, lt→ltb, leb→le,
  ltb→le, eqb→eq, eqb_refl, Bool-cases, Option-cases, some_eq, is_some, and→both, both→and,
  or→either, length, take, drop, length-append, length-take, length-drop, take-append-drop, any,
  all, keep, In, All, All-append, All-map, All-at, All-of, In-append_left, In-append_right,
  In-append, any→In, In→any, any-eq-false, all→All, keep-In, In-keep, has_prefix, trim_right,
  trim_char, index_char, has_char, trim_space, ne→false, false→ne, last_index_char,
  has_prefix→append, has_prefix-append, trim_char-lacks, len-cons, len-nil, len-cons-pos,
  has_prefix_unique, has_prefix_refl, has_prefix_shorter, eq-nil_of_len, ne-nil_of_len, Dict,
  lookup, insert, delete, has_key, lookup-insert, lookup-insert_self, lookup-delete, dict_laws, ℤ,
  pos, negsuc, sub_ℕ, ltb_ℤ, is_pos, add_clamped,
}
use xal_tor_ka.Models.Identity.{User, Users, Session, SetupToken, SetupState}
use xal_tor_ka.Auth.Otp.{OtpStore, Issued, refused, issued, panicked, issue, verify}
use xal_tor_ka.Auth.Directory.{get_user}
use xal_tor_ka.Handlers.Net.{Request, form_value, field}
use xal_tor_ka.Handlers.Reply.{
  Reply, Response, redirect, page, answer, code_request_page, code_verify_page,
}
use xal_tor_ka.Handlers.Server.{Server, Spooled, Moment, audit_fail}
use xal_tor_ka.Handlers.Login.{Outside, Chance, clean, create_session, start_session}

-- s.OTP where the login by code is switched on
unfoldable pub otp_enabled : Server → Option OtpStore
otp_enabled s = if s.cfg.one_time_code.enabled then s.otp else none

-- spoolCode
unfoldable pub spool_code : Bool → String → String → Server → Server
spool_code written email code s = elim s.otp_queue [
  | none ↦ s
  | some lines ↦
      if written
      then record s { otp_queue = some (lines ++ (record { email = email; code = code } ∷ [])) }
      else s
]

-- deliverCode: the channels email and sms fall back on the queue
unfoldable pub deliver_code : Bool → String → String → Server → Server
deliver_code written email code s =
    if s.cfg.one_time_code.channel == "email"
    then spool_code written email code s
    else if s.cfg.one_time_code.channel == "sms"
    then spool_code written email code s
    else spool_code written email code s

unfoldable pub to_login_page : Response
to_login_page = answer (redirect "/login")

module _ (out : Outside) (digest : String → String) where
  -- handleCodeRequestForm
  unfoldable pub handle_code_request_form : Request → Server → Response
  handle_code_request_form r s = elim (otp_enabled s) [
    | none ↦ to_login_page
    | some store ↦ answer (page 200 (code_request_page (clean out s (field "next" r.query))))
  ]

  -- the issue of a code for a known user; none is the panic of randomDigits
  unfoldable pub deliver_issued : Bool → String → Server → Issued × OtpStore → Option Server
  deliver_issued written email s (refused, store) = some (record s { otp = some store })
  deliver_issued written email s (issued code, store) =
      some (deliver_code written email code (record s { otp = some store }))
  deliver_issued written email s (panicked, store) = none

  unfoldable pub request_code :
      Moment → List (Option ℕ) → String → OtpStore → Server → Option User → Option Server
  request_code t draws email store s none = some s
  request_code t draws email store s (some u) =
      deliver_issued t.written email s (issue digest t.now draws email store)

  unfoldable pub code_sent : Request → Server → Response
  code_sent r s =
      answer
        (page 200 (code_verify_page (clean out s (form_value r "next")) (form_value r "email") ""))

  -- handleCodeRequestSubmit; none is a panic
  unfoldable pub handle_code_request_submit :
      Moment → List (Option ℕ) → Request → Server → Option (Response × Server)
  handle_code_request_submit t draws r s = elim (otp_enabled s) [
    | none ↦ some (to_login_page, s)
    | some store ↦
        elim (request_code t draws (form_value r "email") store s
          (get_user s.users (form_value r "email"))) [
            | none ↦ none
            | some s' ↦ some (code_sent r s, s')
          ]
  ]

  unfoldable pub code_again : ℕ → String → String → String → Response
  code_again status next email err = answer (page status (code_verify_page next email err))

  -- !found || !s.OTP.Verify(email, code)
  unfoldable pub verify_for : Moment → String → String → OtpStore → Option User → Bool × OtpStore
  verify_for t email code store none = (false, store)
  verify_for t email code store (some u) = verify digest t.now email code store

  unfoldable pub after_verify :
      Chance → String → String → Server → Bool × OtpStore → Response × Server
  after_verify c next email s (false, store) = (
    code_again 401 next email "Codice non valido o scaduto.",
    audit_fail "otp" (str_append "email=" email) (record s { otp = some store }),
  )
  after_verify c next email s (true, store) =
      start_session out c next (λ s'. code_again 500 next email "Errore interno.")
        (create_session c email "otp" (record s { otp = some store }))

  -- handleCodeVerifySubmit
  unfoldable pub handle_code_verify_submit : Chance → Request → Server → Response × Server
  handle_code_verify_submit c r s = elim (otp_enabled s) [
    | none ↦ (to_login_page, s)
    | some store ↦
        let email = form_value r "email" in
        after_verify c (clean out s (form_value r "next")) email s
          (verify_for c.moment email (form_value r "code") store (get_user s.users email))
  ]
