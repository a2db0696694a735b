-- ===== src/Tests/Wizard.antt =====
-- The set-up wizard and the profile page.
use xal_tor_ka.Base.{◌≡◌, refl, ◌⊎◌, true, none, some, [], ◌∷◌, lookup, insert}
use xal_tor_ka.Models.Identity.{User, Session}
use xal_tor_ka.Auth.Directory.{all_users, get_user, replace, index_users}
use xal_tor_ka.Handlers.Net.{Request, form_value, field}
use xal_tor_ka.Handlers.Reply.{page, answer, setup_done_page}
use xal_tor_ka.Handlers.Server.{Server, session}
use xal_tor_ka.Handlers.Setup.{
  SetupDisk, valid_setup, handle_setup_submit, setup_step, setup_step_cred, finalize_setup,
  setup_user, put_user,
}
use xal_tor_ka.Handlers.Setup.Laws.{Allowed, handle_setup_submit-Allowed}
use xal_tor_ka.Handlers.Profile.{handle_profile_password}
use xal_tor_ka.Handlers.Profile.Laws.{SameUsers, NewPassword, handle_profile_password-owner}
use xal_tor_ka.Tests.Fixtures.{server, request, hashes, at_20, outside, config}
use xal_tor_ka.Tests.Admin.{effects}

abbrev disk : SetupDisk
disk = record { saved = true; removed = true }

abbrev first_run : Server
first_run = record server {
  cfg = record config { disable_totp = true };
  users = record { by_email = [] };
  setup_file = some (record {
    token = "tok";
    email = "root";
    expires_at = 100;
    password_hash = "";
    totp_secret = "";
  });
}

abbrev finishing : Request
finishing = record (request "" "/setup") {
  form = some (("token", "tok") ∷ ("step", "cred") ∷ ("password", "pw") ∷ ("password2", "pw") ∷ []);
}

abbrev root : User
root = record {
  email = "root";
  provider = "local";
  password_hash = "pw";
  totp_secret = "";
  admin = true;
  backends = [];
}

abbrev finished : Server
finished = record first_run {
  users = record { by_email = ("root", root) ∷ [] };
  users_file = root ∷ [];
  setup_file = none;
}

handle_setup_submit-Allowed_example : Allowed hashes effects finishing first_run finished
unfolding handle_setup_submit valid_setup form_value lookup field setup_step setup_step_cred
    finalize_setup setup_user put_user all_users replace index_users insert
handle_setup_submit-Allowed_example =
    handle_setup_submit-Allowed hashes disk effects finishing first_run
      (answer (page 200 (setup_done_page "root"))) finished tt refl

abbrev changing : Request
changing = record (request "a" "/profilo/password") {
  form = some (("current", "secret") ∷ ("password", "fresh") ∷ []);
}

handle_profile_password-owner_example :
    SameUsers server (handle_profile_password outside.verify_password effects changing server).1
    ⊎ ((sess : Session) × (u : User) × ((session at_20 changing server).0 ≡ some sess)
        × (sess.two_fa_done ≡ true)
        × (get_user (session at_20 changing server).1.users sess.email ≡ some u)
        × (u.provider ≡ "local")
        × (outside.verify_password u.password_hash (form_value changing "current") ≡ true)
        × NewPassword effects changing u.email server
            (handle_profile_password outside.verify_password effects changing server).1)
handle_profile_password-owner_example =
    handle_profile_password-owner outside.verify_password effects changing server
