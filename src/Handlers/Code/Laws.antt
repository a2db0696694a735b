-- ===== src/Handlers/Code/Laws.antt =====
-- handlers/otp.go: what a code is given for, and what it opens.
use xal_tor_ka.Base.{
  ℕ, ◌≤◌, String, code, ◌≡◌, refl, sym, ap, ◌∙◌, inl, inr, Bool, true, false, Option, none, some,
  List, if◌then◌else◌, Option-cases, some_eq, is_some, lookup,
}
use xal_tor_ka.Models.Identity.{User}
use xal_tor_ka.Auth.Otp.{OtpStore, OtpEntry, hash_code}
use xal_tor_ka.Auth.Otp.Laws.{verify_lem}
use xal_tor_ka.Auth.Directory.{get_user}
use xal_tor_ka.Handlers.Net.{Request, form_value}
use xal_tor_ka.Handlers.Reply.{Response, set_session}
use xal_tor_ka.Handlers.Server.{Server, Moment}
use xal_tor_ka.Handlers.Login.{Outside, Chance, clean}
use xal_tor_ka.Handlers.Login.Laws.{Opened, chance, start_session-Opened}
use xal_tor_ka.Handlers.Code.{
  otp_enabled, code_sent, to_login_page, request_code, handle_code_request_submit, code_again,
  verify_for, after_verify, handle_code_verify_submit,
}

-- A known user typed in an open code of the address that is not out of date.
abbrev pub CodeLogin : (String → String) → Moment → Server → String → String → Type 0
CodeLogin digest t s email code =
    (u : User) × (get_user s.users email ≡ some u)
    × ((store : OtpStore) × (otp_enabled s ≡ some store)
        × ((e : OtpEntry) × (lookup email store.codes ≡ some e)
            × (t.now ≤ e.expires)
            × (e.hash ≡ hash_code digest code)))

module _ (out : Outside) (digest : String → String) (t : Moment) where
  verify_for-CodeLogin :
      (s : Server) (email code : String) (store : OtpStore) (o : Option User)
      → get_user s.users email ≡ o
      → otp_enabled s ≡ some store
      → (verify_for out digest t email code store o).0 ≡ true
      → CodeLogin digest t s email code
  unfolding verify_for
  verify_for-CodeLogin s email code store none k e h = cc
  verify_for-CodeLogin s email code store (some u) k e h =
      elim (verify_lem digest t.now email code store) [
        | inl (entry, found, timely, same, _) ↦ (u, k, (store, e, (entry, found, timely, same)))
        | inr (q, _) ↦ absurd (cc (ap (λ r. r.0) q, h))
      ]

  after_verify-Opened :
      (o : Option String) (next email : String) (s : Server) (res : Bool × OtpStore) (id : String)
      → (after_verify out digest (chance t o) next email s res).0.cookie ≡ set_session id
      → (res.0 ≡ true)
        × Opened
            (chance t o)
            id
            email
            "otp"
            s.cfg.disable_totp
            (after_verify out digest (chance t o) next email s res).1
  unfolding after_verify code_again
  after_verify-Opened o next email s (false, store) id h = cc
  after_verify-Opened o next email s (true, store) id h = (
    refl,
    start_session-Opened out t next email "otp" _ o (record s { otp = some store }) id (λ x. refl)
        h,
  )

-- The page for a one-time code sets a session cookie only for a known user with an open code of the
-- address that is in date and has the typed code's hash, where the login by code is switched on.
-- The store then holds a new session of that user, which still waits for TOTP unless TOTP is
-- switched off.
pub code_opens :
    (out : Outside) (digest : String → String) (c : Chance) (r : Request) (s : Server) (id : String)
    → (handle_code_verify_submit out digest c r s).0.cookie ≡ set_session id
    → CodeLogin digest c.moment s (form_value r "email") (form_value r "code")
      × Opened c id
          (form_value r "email")
          "otp"
          s.cfg.disable_totp
          (handle_code_verify_submit out digest c r s).1
unfolding handle_code_verify_submit to_login_page
code_opens out digest c r s id h = elim (Option-cases (otp_enabled s)) [
  | inl e ↦ absurd (cc (rw (e, handle_code_verify_submit) at h))
  | inr (store, e) ↦
      let (right, stored) =
        after_verify-Opened out digest c.moment c.id (clean out s (form_value r "next"))
          (form_value r "email") s _ id (rw (e, handle_code_verify_submit) at h) in
      (
        verify_for-CodeLogin out digest c.moment s (form_value r "email") (form_value r "code")
            store _ refl e right,
        rw (e, handle_code_verify_submit) stored,
      )
]

code_request_answer :
    (out : Outside) (digest : String → String) (t : Moment) (draws : List (Option ℕ)) (r : Request)
    (s : Server) (a : Response × Server)
    → handle_code_request_submit out digest t draws r s ≡ some a
    → a.0 ≡ (if is_some (otp_enabled s) then code_sent out digest r s else to_login_page)
unfolding handle_code_request_submit
code_request_answer out digest t draws r s a h = elim (Option-cases (otp_enabled s)) [
  | inl e ↦ rw e (sym (ap (λ x. x.0) (some_eq (rw (e, handle_code_request_submit) at h))))
  | inr (store, e) ↦
      elim (Option-cases (
        request_code out digest t draws (form_value r "email") store s
          (get_user s.users (form_value r "email")))) [
            | inl k ↦ absurd (cc (rw (e, k, handle_code_request_submit) at h))
            | inr (s1, k) ↦
                rw e (sym (ap (λ x. x.0) (some_eq (rw (e, k, handle_code_request_submit) at h))))
          ]
]

-- The answer to a request for a code does not tell whether the address is that of a user: two
-- servers with the same backends, on both of which the login by code is on or on both off, give the
-- same page wherever they answer, whatever their users and codes.
pub code_request_silent :
    (out : Outside) (digest : String → String) (t t' : Moment) (draws draws' : List (Option ℕ))
    (r : Request) (s s' : Server) (a a' : Response × Server)
    → s.resolver ≡ s'.resolver
    → is_some (otp_enabled s) ≡ is_some (otp_enabled s')
    → handle_code_request_submit out digest t draws r s ≡ some a
    → handle_code_request_submit out digest t' draws' r s' ≡ some a'
    → a.0 ≡ a'.0
unfolding code_sent
code_request_silent out digest t t' draws draws' r s s' a a' same on h h' =
    let one = code_request_answer out digest t draws r s a h in
    let two = code_request_answer out digest t' draws' r s' a' h' in
    one ∙ rw (on, same) refl ∙ sym two
