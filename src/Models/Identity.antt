-- ===== src/Models/Identity.antt =====
-- models/config.go, users, sessions and the first-run setup.
use xal_tor_ka.Base.{String, Bool, List, ℕ}

pub record User : Type 0 where
  pub email : String
  pub provider : String
  pub password_hash : String
  pub totp_secret : String
  pub admin : Bool
  pub backends : List String

pub record Users : Type 0 where
  pub users : List User

pub record Session : Type 0 where
  pub id : String
  pub email : String
  pub provider : String
  pub two_fa_done : Bool
  pub created_at : ℕ
  pub last_seen : ℕ

pub record SetupToken : Type 0 where
  pub value : String
  pub expires_at : ℕ
  pub used : Bool

pub record SetupState : Type 0 where
  pub token : String
  pub email : String
  pub expires_at : ℕ
  pub password_hash : String
  pub totp_secret : String
