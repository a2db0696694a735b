-- ===== src/Handlers/Setup/Laws.antt =====
-- handlers/setup.go: who can change the users through the wizard, and that its token works once.
use xal_tor_ka.Base.{
  ◌≤◌, String, ◌≡◌, refl, ◌⊎◌, inl, inr, Bool, true, false, not, ◌||◌, Option, none, some, arith,
  ◌==◌, eq_iff, if◌then◌else◌, Bool-cases, Option-cases, some_eq, Distinct,
}
use xal_tor_ka.Models.Identity.{User, SetupState}
use xal_tor_ka.Auth.Totp.{verify_totp}
use xal_tor_ka.Auth.Directory.{all_users, get_user}
use xal_tor_ka.Handlers.Net.{Request, form_value}
use xal_tor_ka.Handlers.Reply.{Response}
use xal_tor_ka.Handlers.Server.{Server}
use xal_tor_ka.Handlers.Login.{Hashes}
use xal_tor_ka.Handlers.Admin.{Effects}
use xal_tor_ka.Handlers.Admin.Users.Laws.{emails}
use mathlib.Core.Path.{subst}
use xal_tor_ka.Handlers.Setup.{
  SetupDisk, setup_error, valid_setup, finalize_setup, render_totp_step, save_credentials,
  setup_step_cred, after_code, setup_step_confirm, setup_step, handle_setup_submit,
}
use xal_tor_ka.Handlers.Setup.Settled.{Settled, finalize_setup-Settled}

-- The request holds the token of the state, which is neither empty nor out of time.
pub record Bearer (e : Effects) (r : Request) (s : Server) (st : SetupState) : Type 0 where
  pub on_disk : s.setup_file ≡ some st
  pub token : form_value r "token" ≡ st.token
  pub given : (st.token == "") ≡ false
  pub in_time : e.moment.now ≤ st.expires_at

-- The request has the right code for the secret of the state, or there are no codes.
abbrev pub Proved : Hashes → Effects → Request → Server → SetupState → Type 0
Proved h e r s st =
    (s.cfg.disable_totp ≡ true)
    ⊎ (verify_totp h.hmac_sha1 h.to_upper h.base32 st.totp_secret (form_value r "code") e.moment.now
        ≡ some true)

if_cases :
    {A : Type 0} (P : A → Type 0) (b : Bool) (v w : A)
    → (b ≡ true → P v)
    → (b ≡ false → P w)
    → P (if b then v else w)
if_cases P true v w f g = f refl
if_cases P false v w f g = g refl

chosen :
    (b : Bool) (x st : SetupState) → (if b then none else some x) ≡ some st → (b ≡ false) × (x ≡ st)
chosen true x st h = cc
chosen false x st h = (refl, some_eq h)

guards : (a b c d : Bool) → (a || b || not c || d) ≡ false → (b ≡ false) × (c ≡ true) × (d ≡ false)
guards a b c d h = (ground arith, ground arith, ground arith)

valid_setup-Bearer :
    (e : Effects) (r : Request) (s : Server) (st : SetupState)
    → valid_setup e.moment.now (form_value r "token") s.setup_file ≡ some st
    → Bearer e r s st
unfolding valid_setup
valid_setup-Bearer e r s st h = by_file s.setup_file refl h
  where
    token : String
    token = form_value r "token"

    by_file :
        (o : Option SetupState)
        → s.setup_file ≡ o
        → valid_setup e.moment.now token o ≡ some st
        → Bearer e r s st
    by_file none q k = cc
    by_file (some x) q k =
        let (passed, same) = chosen _ x st k in
        let (given, equal, early) =
          guards (token == "") (x.token == "") (token == x.token) _ passed in
        subst (λ y. Bearer e r s y) same
          (record {
            on_disk = q;
            token = (eq_iff token x.token).0 equal;
            given = given;
            in_time = ground arith;
          })

-- What one request may do to the users: nothing, or, for the bearer of the token that has proved the
-- second factor, the setting of the administrator of the state.
abbrev pub Allowed : Hashes → Effects → Request → Server → Server → Type 0
Allowed h e r s s' =
    ((s'.users ≡ s.users) × (s'.users_file ≡ s.users_file))
    ⊎ ((st : SetupState) × Bearer e r s st
        × Proved h e r s st
        × ((u : User) × (get_user s'.users st.email ≡ some u) × (u.admin ≡ true)))

module _ (h : Hashes) (d : SetupDisk) (e : Effects) (r : Request) (s : Server)
    (st : SetupState) where
  settled→Allowed :
      (s' : Server) → Bearer e r s st → Proved h e r s st → Settled s st s' → Allowed h e r s s'
  settled→Allowed s' b p (inl same) = inl same
  settled→Allowed s' b p (inr made) = inr (st, b, p, made)

  cred-Allowed :
      Bearer e r s st
      → Distinct (emails (all_users s.users))
      → Allowed h e r s (setup_step_cred d e r st s).1
  unfolding setup_step_cred save_credentials
  cred-Allowed b apart = elim (Bool-cases mismatch) [
    | inl q ↦ rw (q, setup_step_cred) (inl (refl, refl))
    | inr q ↦ elim (Option-cases (e.hash_password (form_value r "password"))) [
      | inl k ↦ rw (q, k, setup_step_cred) (inl (refl, refl))
      | inr (hash, k) ↦
          rw (q, k, setup_step_cred)
            (if_cases (λ (y : Response × Server). Allowed h e r s y.1) s.cfg.disable_totp
              (finalize_setup d e (record st { password_hash = hash; totp_secret = "" }) s)
              (enrolled hash e.new_secret) (without_codes hash)
              (λ _. enrolled-Allowed hash e.new_secret))
    ]
  ]
    where
      mismatch : Bool
      mismatch =
          form_value r "password" == "" || not (form_value r "password" == form_value r "password2")

      without_codes :
          (hash : String)
          → s.cfg.disable_totp ≡ true
          → Allowed h e r s
              (finalize_setup d e (record st { password_hash = hash; totp_secret = "" }) s).1
      without_codes hash off =
          settled→Allowed
            (finalize_setup d e (record st { password_hash = hash; totp_secret = "" }) s).1 b
            (inl off)
            (finalize_setup-Settled d e (record st { password_hash = hash; totp_secret = "" }) s
              apart)

      enrolled : String → Option String → Response × Server
      enrolled hash o = elim o [
        | none ↦ (setup_error, s)
        | some secret ↦
            save_credentials d e (record st { password_hash = hash; totp_secret = secret }) s
      ]

      enrolled-Allowed : (hash : String) (o : Option String) → Allowed h e r s (enrolled hash o).1
      enrolled-Allowed hash none = inl (refl, refl)
      enrolled-Allowed hash (some secret) =
          if_cases (λ (y : Response × Server). Allowed h e r s y.1) d.saved
            (
              render_totp_step e (record st { password_hash = hash; totp_secret = secret }) "",
              record s {
                setup_file = some (record st { password_hash = hash; totp_secret = secret });
              },
            )
            (setup_error, s) (λ _. inl (refl, refl)) (λ _. inl (refl, refl))

  confirm-Allowed :
      (resp : Response) (s' : Server)
      → Bearer e r s st
      → Distinct (emails (all_users s.users))
      → setup_step_confirm h d e r st s ≡ some (resp, s')
      → Allowed h e r s s'
  unfolding setup_step_confirm after_code
  confirm-Allowed resp s' b apart q =
      by_guard (st.totp_secret == "" || st.password_hash == "") right refl q
    where
      right : Option Bool
      right =
          verify_totp h.hmac_sha1 h.to_upper h.base32 st.totp_secret (form_value r "code")
            e.moment.now

      unchanged :
          (x : Response)
          → Path (Option (Response × Server)) (some (x, s)) (some (resp, s'))
          → Allowed h e r s s'
      unchanged x k = subst (λ y. Allowed h e r s y.1) (some_eq k) (inl (refl, refl))

      by_guard :
          (g : Bool) (o : Option Bool)
          → right ≡ o
          → (if g then some (setup_error, s) else after_code d e st s o) ≡ some (resp, s')
          → Allowed h e r s s'
      by_guard true o k w = unchanged setup_error w
      by_guard false none k w = cc
      by_guard false (some false) k w = unchanged (render_totp_step e st "err.bad_code") w
      by_guard false (some true) k w =
          subst (λ y. Allowed h e r s y.1) (some_eq w)
            (settled→Allowed (finalize_setup d e st s).1 b (inr k)
              (finalize_setup-Settled d e st s apart))

  step-Allowed :
      (resp : Response) (s' : Server)
      → Bearer e r s st
      → Distinct (emails (all_users s.users))
      → setup_step h d e r st s ≡ some (resp, s')
      → Allowed h e r s s'
  unfolding setup_step
  step-Allowed resp s' b apart q = elim (Bool-cases (form_value r "step" == "cred")) [
    | inl k ↦
        subst (λ y. Allowed h e r s y.1) (some_eq (rw (k, setup_step) at q)) (cred-Allowed b apart)
    | inr k ↦ elim (Bool-cases (form_value r "step" == "confirm")) [
      | inl w ↦ confirm-Allowed resp s' b apart (rw (k, w, setup_step) at q)
      | inr w ↦
          subst (λ y. Allowed h e r s y.1) (some_eq (rw (k, w, setup_step) at q)) (inl (refl, refl))
    ]
  ]

-- A request to the set-up wizard changes the users only for the bearer of the token on disk, in its
-- time, and only after the right code where codes are on: every other request leaves directory and
-- users.json as they were. After the change the user of the token is an administrator.
pub handle_setup_submit-Allowed :
    (h : Hashes) (d : SetupDisk) (e : Effects) (r : Request) (s : Server) (resp : Response)
    (s' : Server)
    → Distinct (emails (all_users s.users))
    → handle_setup_submit h d e r s ≡ some (resp, s')
    → Allowed h e r s s'
unfolding handle_setup_submit
handle_setup_submit-Allowed h d e r s resp s' apart q = elim (Option-cases r.form) [
  | inl k ↦
      subst (λ y. Allowed h e r s y.1) (some_eq (rw (k, handle_setup_submit) at q))
        (inl (refl, refl))
  | inr (form, k) ↦
      elim (Option-cases (valid_setup e.moment.now (form_value r "token") s.setup_file)) [
        | inl w ↦
            subst (λ y. Allowed h e r s y.1) (some_eq (rw (k, w, handle_setup_submit) at q))
              (inl (refl, refl))
        | inr (st, w) ↦
            step-Allowed h d e r s st resp s' (valid_setup-Bearer e r s st w) apart
              (rw (k, w, handle_setup_submit) at q)
      ]
]

-- Once the setup file is gone the wizard refuses every request and changes nothing.
pub setup_closed :
    (h : Hashes) (d : SetupDisk) (e : Effects) (r : Request) (s : Server)
    → s.setup_file ≡ none
    → handle_setup_submit h d e r s ≡ some (setup_error, s)
unfolding handle_setup_submit valid_setup
setup_closed h d e r s gone = elim (Option-cases r.form) [
  | inl k ↦ rw (k, handle_setup_submit) refl
  | inr (form, k) ↦ rw (k, handle_setup_submit) (by_file s.setup_file gone)
]
  where
    by_file :
        (o : Option SetupState)
        → o ≡ none
        → let after : Option (Response × Server) =
            elim (valid_setup e.moment.now (form_value r "token") o) [
              | none ↦ some (setup_error, s)
              | some st ↦ setup_step h d e r st s
            ] in
          after ≡ some (setup_error, s)
    by_file none q = refl
    by_file (some st) q = cc
