-- ===== src/Handlers/Setup.antt =====
-- handlers/setup.go: the wizard that makes the first administrator. The setup file is that of the
-- server's record; none is a file that is not there or does not decode. The picture of the QR code
-- is not modelled, only that drawing it may fail.
pub mod Settled
pub mod Laws
use xal_tor_ka.Base.{
  ℕ, zero, suc, ◌+◌, ◌-◌, ◌*◌, ◌/◌, ◌%◌, ◌^◌, ◌≤◌, ◌<◌, String, Char, code, ◌≡◌, refl, sym, ap, ◌∙◌,
  ◌≢◌, ◌↔◌, ◌⊎◌, inl, inr, Bool, true, false, not, ◌&&◌, ◌||◌, Option, none, some, List, [], ◌∷◌,
  ◌++◌, map, arith, ◌==◌, eq_iff, eq_refl, ltb, leb, eqb, if◌then◌else◌, ltb→lt, lt→ltb, leb→le,
  ltb→le, eqb→eq, eqb_refl, Bool-cases, Option-cases, some_eq, is_some, and→both, both→and,
  or→either, length, take, drop, length-append, length-take, length-drop, take-append-drop, any,
  all, keep, In, All, All-append, All-map, All-at, All-of, In-append_left, In-append_right,
  In-append, any→In, In→any, any-eq-false, all→All, keep-In, In-keep, has_prefix, trim_right,
  trim_char, index_char, has_char, trim_space, ne→false, false→ne, last_index_char,
  has_prefix→append, has_prefix-append, trim_char-lacks, len-cons, len-nil, len-cons-pos,
  has_prefix_unique, has_prefix_refl, has_prefix_shorter, eq-nil_of_len, ne-nil_of_len, Dict,
  lookup, insert, delete, has_key, lookup-insert, lookup-insert_self, lookup-delete, dict_laws, ℤ,
  pos, negsuc, sub_ℕ, ltb_ℤ, is_pos, add_clamped,
}
use xal_tor_ka.Models.Identity.{User, Users, Session, SetupToken, SetupState}
use xal_tor_ka.Auth.Totp.{verify_totp}
use xal_tor_ka.Auth.Directory.{all_users, replace}
use xal_tor_ka.Handlers.Net.{Request, form_value, field}
use xal_tor_ka.Handlers.Reply.{
  Reply, Response, Page, page, answer, error_page, setup_cred_page, setup_totp_page,
  setup_done_page,
}
use xal_tor_ka.Handlers.Server.{Server}
use xal_tor_ka.Handlers.Login.{Hashes}
use xal_tor_ka.Handlers.Admin.{Effects}

-- what the disk does with the setup file
pub record SetupDisk : Type 0 where
  pub saved : Bool
  pub removed : Bool

unfoldable pub setup_error : Response
setup_error = answer (page 403 (error_page "err.setup_unavailable"))

-- validSetup; a constant-time comparison is an equality
unfoldable pub valid_setup : ℕ → String → Option SetupState → Option SetupState
valid_setup now token none = none
valid_setup now token (some st) =
    if token == "" || st.token == "" || not (token == st.token) || ltb st.expires_at now
    then none
    else some st

-- handleSetupForm
unfoldable pub handle_setup_form : Effects → Request → Server → Response
handle_setup_form e r s = elim (valid_setup e.moment.now (field "token" r.query) s.setup_file) [
  | none ↦ setup_error
  | some st ↦ answer (page 200 (setup_cred_page st.email st.token ""))
]

unfoldable pub setup_user : SetupState → User
setup_user st = record {
  email = st.email;
  provider = "local";
  password_hash = st.password_hash;
  totp_secret = st.totp_secret;
  admin = true;
  backends = [];
}

-- the first user with the address is replaced, else the new one goes to the end
unfoldable pub put_user : User → List User → List User
put_user new [] = new ∷ []
put_user new (u ∷ us) =
    let rest = put_user new us in if u.email == new.email then new ∷ us else u ∷ rest

-- finalizeSetup
unfoldable pub finalize_setup : SetupDisk → Effects → SetupState → Server → Response × Server
finalize_setup d e st s =
    let us = put_user (setup_user st) (all_users s.users) in
    if e.users_saved
    then (
      answer (page 200 (setup_done_page st.email)),
      record s {
        users_file = us;
        users = replace s.users us;
        setup_file = if d.removed then none else s.setup_file;
      },
    )
    else (setup_error, s)

-- renderTOTPStep
unfoldable pub render_totp_step : Effects → SetupState → String → Response
render_totp_step e st err =
    if e.draws_qr
    then answer (page 200 (setup_totp_page st.token st.totp_secret err))
    else setup_error

-- setupStepCred behind the two random values
unfoldable pub save_credentials : SetupDisk → Effects → SetupState → Server → Response × Server
save_credentials d e st s =
    if d.saved
    then (render_totp_step e st "", record s { setup_file = some st })
    else (setup_error, s)

unfoldable pub setup_step_cred :
    SetupDisk → Effects → Request → SetupState → Server → Response × Server
setup_step_cred d e r st s =
    let pw = form_value r "password" in
    if pw == "" || not (pw == form_value r "password2")
    then (answer (page 400 (setup_cred_page st.email st.token "setup.err.pw_mismatch")), s)
    else elim (e.hash_password pw) [
      | none ↦ (setup_error, s)
      | some hash ↦
          if s.cfg.disable_totp
          then finalize_setup d e (record st { password_hash = hash; totp_secret = "" }) s
          else elim e.new_secret [
            | none ↦ (setup_error, s)
            | some secret ↦
                save_credentials d e (record st { password_hash = hash; totp_secret = secret }) s
          ]
    ]

unfoldable pub after_code :
    SetupDisk → Effects → SetupState → Server → Option Bool → Option (Response × Server)
after_code d e st s none = none
after_code d e st s (some false) = some (render_totp_step e st "err.bad_code", s)
after_code d e st s (some true) = some (finalize_setup d e st s)

-- setupStepConfirm; none is a panic of VerifyTOTP
unfoldable pub setup_step_confirm :
    Hashes → SetupDisk → Effects → Request → SetupState → Server → Option (Response × Server)
setup_step_confirm h d e r st s =
    let right =
      verify_totp h.hmac_sha1 h.to_upper h.base32 st.totp_secret (form_value r "code")
        e.moment.now in
    if st.totp_secret == "" || st.password_hash == ""
    then some (setup_error, s)
    else after_code d e st s right

-- the step of the form
unfoldable pub setup_step :
    Hashes → SetupDisk → Effects → Request → SetupState → Server → Option (Response × Server)
setup_step h d e r st s =
    if form_value r "step" == "cred"
    then some (setup_step_cred d e r st s)
    else if form_value r "step" == "confirm"
    then setup_step_confirm h d e r st s
    else some (setup_error, s)

-- handleSetupSubmit; none is a panic
unfoldable pub handle_setup_submit :
    Hashes → SetupDisk → Effects → Request → Server → Option (Response × Server)
handle_setup_submit h d e r s = elim r.form [
  | none ↦ some (setup_error, s)
  | some form ↦ elim (valid_setup e.moment.now (form_value r "token") s.setup_file) [
    | none ↦ some (setup_error, s)
    | some st ↦ setup_step h d e r st s
  ]
]
