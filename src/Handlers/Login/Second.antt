-- ===== src/Handlers/Login/Second.antt =====
-- handlers/login.go, handleTOTPSubmit: the second factor.
use xal_tor_ka.Base.{
  ℕ, String, code, ◌≡◌, refl, sym, ap, ◌∙◌, ◌⊎◌, inl, inr, Bool, true, false, Option, none, some,
  List, Option-cases, some_eq, length, Dict,
}
use xal_tor_ka.Models.Identity.{User, Session}
use xal_tor_ka.Auth.Totp.{verify_totp}
use xal_tor_ka.Auth.Totp.Laws.{verify_totp_lem}
use xal_tor_ka.Auth.Directory.{get_user}
use xal_tor_ka.Handlers.Net.{Request, field}
use xal_tor_ka.Handlers.Reply.{Response, redirect, answer}
use xal_tor_ka.Handlers.Server.{Server, session, audit_fail}
use xal_tor_ka.Handlers.Login.{
  Outside, Chance, Hashes, complete, clean, code_right, finish_totp, check_totp, handle_totp_submit,
  totp_again,
}

-- HMAC-SHA1 makes twenty bytes.
abbrev pub Sha1Length : Hashes → Type 0
Sha1Length h = (key msg : List ℕ) → length (h.hmac_sha1 key msg) ≡ 20

-- Of the request's session and the state behind its lookup: a session, and the user's code.
abbrev pub Proved :
    Hashes → Chance → Request → Option Session × Server → Session → Dict String → Type 0
Proved h c r found sess form =
    (found.0 ≡ some sess)
    × (r.form ≡ some form)
    × ((u : User) × (get_user found.1.users sess.email ≡ some u)
        × (verify_totp h.hmac_sha1 h.to_upper h.base32 u.totp_secret (field "code" form)
              c.moment.now
            ≡ some true))

abbrev pub Finished :
    Outside → Hashes → Chance → Request → Option Session × Server → Response × Server → Type 0
Finished out h c r found res =
    ((sess : Session) × (form : Dict String) × Proved h c r found sess form
      × (res ≡ (
        answer (redirect (clean out found.1 (field "next" form))),
        complete c sess.id found.1,
      )))
    ⊎ (((sess : Session) (form : Dict String) → ¬ Proved h c r found sess form)
        × (res.1.sessions ≡ found.1.sessions))

audit-sessions : (e d : String) (s : Server) → (audit_fail e d s).sessions ≡ s.sessions
unfolding audit_fail
audit-sessions e d s = elim (Option-cases s.audit) [
  | inl k ↦ rw (k, audit_fail) refl
  | inr (log, k) ↦ rw (k, audit_fail) refl
]

module _ (out : Outside) (h : Hashes) (sha : Sha1Length h) (c : Chance) (r : Request) where
  code_right_total :
      (code : String) (o : Option User)
      → (b : Bool) × (code_right out h c.moment code o ≡ some b)
        × ((b ≡ true)
            → (u : User) × (o ≡ some u)
              × (verify_totp h.hmac_sha1 h.to_upper h.base32 u.totp_secret code c.moment.now
                  ≡ some true))
        × ((u : User)
            → o ≡ some u
            → verify_totp h.hmac_sha1 h.to_upper h.base32 u.totp_secret code c.moment.now
              ≡ some true
            → b ≡ true)
  unfolding code_right
  code_right_total code none = (false, refl, (λ q. cc), (λ u q k. cc))
  code_right_total code (some u) =
      let (b, e, _) =
        verify_totp_lem h.hmac_sha1 sha h.to_upper h.base32 u.totp_secret code c.moment.now in
      (b, e, (λ q. (u, refl, e ∙ ap some q)), (λ v q k. some_eq (sym e ∙ same u v (some_eq q) k)))
    where
      same :
          (u v : User)
          → u ≡ v
          → verify_totp h.hmac_sha1 h.to_upper h.base32 v.totp_secret code c.moment.now ≡ some true
          → verify_totp h.hmac_sha1 h.to_upper h.base32 u.totp_secret code c.moment.now ≡ some true
      same u v q k = rw q k

  check_totp-Finished :
      (found : Option Session × Server)
      → (res : Response × Server) × (check_totp out h c r found ≡ some res)
        × Finished out h c r found res
  unfolding check_totp finish_totp
  check_totp-Finished (none, s) = (_, refl, inr ((λ sess form (e, _, _). cc), refl))
  check_totp-Finished (some sess, s) = elim (Option-cases r.form) [
    | inl e ↦ (
      (totp_again out 400 s "/listing" "err.bad_request", s),
      rw (e, check_totp) refl,
      inr ((λ x form (_, k, _). cc), refl),
    )
    | inr (form, e) ↦
        let (b, q, to, from) = code_right_total (field "code" form) (get_user s.users sess.email) in
        by_code form e b q to from
  ]
    where
      by_code :
          (form : Dict String)
          → r.form ≡ some form
          → (b : Bool)
          → code_right out h c.moment (field "code" form) (get_user s.users sess.email) ≡ some b
          → ((b ≡ true)
              → (u : User) × (get_user s.users sess.email ≡ some u)
                × (verify_totp h.hmac_sha1 h.to_upper h.base32 u.totp_secret
                      (field "code" form)
                      c.moment.now
                    ≡ some true))
          → ((u : User)
              → get_user s.users sess.email ≡ some u
              → verify_totp h.hmac_sha1 h.to_upper h.base32 u.totp_secret
                  (field "code" form)
                  c.moment.now
                ≡ some true
              → b ≡ true)
          → (res : Response × Server) × (check_totp out h c r (some sess, s) ≡ some res)
            × Finished out h c r (some sess, s) res
      by_code form e true q to from = (
        finish_totp out c (clean out s (field "next" form)) sess s true,
        rw (e, check_totp, q) refl,
        inl (sess, form, (refl, e, to refl), refl),
      )
      by_code form e false q to from = (
        finish_totp out c (clean out s (field "next" form)) sess s false,
        rw (e, check_totp, q) refl,
        inr (
          (λ x f (k, e', (u, known, right)). absurd (
              cc (
                from u (same_user x (some_eq k) u known)
                  (same_code f (some_eq (sym e ∙ e')) u right)))),
          audit-sessions _ _ s,
        ),
      )
        where
          same_user :
              (x : Session)
              → sess ≡ x
              → (u : User) → get_user s.users x.email ≡ some u
              → get_user s.users sess.email ≡ some u
          same_user x k u known = rw k known

          same_code :
              (f : Dict String)
              → form ≡ f
              → (u : User)
              → verify_totp h.hmac_sha1 h.to_upper h.base32 u.totp_secret
                  (field "code" f)
                  c.moment.now
                ≡ some true
              → verify_totp h.hmac_sha1 h.to_upper h.base32 u.totp_secret
                  (field "code" form)
                  c.moment.now
                ≡ some true
          same_code f k u right = rw k right

-- Where HMAC-SHA1 makes twenty bytes, the TOTP page always answers. It completes the session of the
-- request, and redirects to the cleaned target, exactly if the form carries a code that is right
-- now for the user of that session; otherwise the lookup of the session is all that happens to the
-- sessions.
pub totp_completes :
    (out : Outside) (h : Hashes) (c : Chance) (r : Request) (s : Server)
    → Sha1Length h
    → (res : Response × Server) × (handle_totp_submit out h c r s ≡ some res)
      × Finished out h c r (session c.moment r s) res
unfolding handle_totp_submit
totp_completes out h c r s sha = check_totp-Finished out h sha c r (session c.moment r s)
