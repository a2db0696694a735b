-- ===== src/Handlers/Validate/Header.antt =====
-- handlers/server.go, handleValidate: whom the header X-Auth-User names.
use xal_tor_ka.Base.{String, ◌≡◌, true, Option, some}
use xal_tor_ka.Models.Identity.{Session}
use xal_tor_ka.Handlers.Server.{Server}
use xal_tor_ka.Handlers.Validate.{Verdict, status_ok}

-- The answer names the user of a session that is there and has its second factor, and is 200.
abbrev pub Names : Option Session → String → Verdict → Type 0
Names found email v =
    (sess : Session) × (found ≡ some sess)
    × (sess.two_fa_done ≡ true)
    × (sess.email ≡ email)
    × (v.status ≡ status_ok)

-- An answer that names somebody names that user.
abbrev Honest : Option Session → Verdict → Type 0
Honest found v = (email : String) → v.auth_user ≡ some email → Names found email v
