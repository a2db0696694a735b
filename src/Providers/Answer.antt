-- ===== src/Providers/Answer.antt =====
-- providers/provider.go: the identity that a provider confirms, and its two kinds of error.
use xal_tor_ka.Base.{String}

pub record Identity : Type 0 where
  pub email : String
  pub provider : String

-- `invalid_credentials` is ErrInvalidCredentials, `unavailable` any other error.
pub data Answer : Type 0 where
  identity : Identity → Answer
  invalid_credentials : Answer
  unavailable : Answer
