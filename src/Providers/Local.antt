-- ===== src/Providers/Local.antt =====
-- providers/local.go. The check of a password against an argon2id hash is a parameter.
use xal_tor_ka.Base.{String, Bool, not, ◌||◌, Option, none, some, ◌==◌, if◌then◌else◌}
use xal_tor_ka.Models.Identity.{User}
use xal_tor_ka.Auth.Directory.{UserDirectory, get_user}
use xal_tor_ka.Providers.Answer.{Answer, identity, invalid_credentials}

module _ (verify_password : String → String → Bool) where
  unfoldable pub authenticate_user : String → String → Option User → Answer
  authenticate_user email password none = invalid_credentials
  authenticate_user email password (some u) =
      if not (u.provider == "local") || u.password_hash == ""
      then invalid_credentials
      else if verify_password u.password_hash password
      then identity (record { email = email; provider = "local" })
      else invalid_credentials

  -- Authenticate
  unfoldable pub authenticate_local : UserDirectory → String → String → Answer
  authenticate_local dir email password = authenticate_user email password (get_user dir email)
