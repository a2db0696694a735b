-- ===== src/Tests/Codes.antt =====
-- One-time codes and TOTP, at concrete stores and keys.
use xal_tor_ka.Base.{
  ℕ, ◌+◌, ◌≤◌, String, ◌≡◌, refl, ◌≢◌, ◌↔◌, ◌⊎◌, Bool, true, false, Option, none, some, List, [],
  ◌∷◌, arith, if◌then◌else◌, is_some, length, trim_space, lookup, delete, pos,
}
use xal_tor_ka.Auth.Otp.{
  OtpStore, OtpEntry, digit, draw_digits, dashes, random_digits, issued, must_wait, hash_code,
  entry_for, store_code, issue, verify,
}
use xal_tor_ka.Auth.Otp.Laws.{verify_lem, issue-verify}
use xal_tor_ka.Auth.Otp.History.{issues, verifies, admitted, given, admitted-le-given}
use xal_tor_ka.Auth.Otp.Marker.{issue_failing}
use xal_tor_ka.Auth.Totp.{verify_totp, hotp, truncate, byte_at, counters, six_digits, big_endian}
use xal_tor_ka.Auth.Totp.Laws.{verify_totp_lem, verify_totp_skew, Fits}
use xal_tor_ka.Tests.Fixtures.{hashes, hmac}

abbrev digest : String → String
digest s = s

abbrev codes : OtpStore
codes = record { codes = []; ttl = pos 100; cooldown = pos 30; length = 4 }

abbrev draws : List (Option ℕ)
draws = some 1 ∷ some 2 ∷ some 3 ∷ some 4 ∷ []

abbrev open_codes : OtpStore
open_codes = record codes {
  codes = ("bob", record { hash = "xtk-otp:1234"; issued = 10; expires = 110 }) ∷ [];
}

admitted-le-given_example :
    admitted digest "bob" codes
      (issues 10 draws "bob" ∷ verifies 20 "bob" "1234" ∷ verifies 21 "bob" "1234" ∷ [])
    ≤ given digest "bob" codes
        (issues 10 draws "bob" ∷ verifies 20 "bob" "1234" ∷ verifies 21 "bob" "1234" ∷ [])
      + (if is_some (lookup "bob" codes.codes) then 1 else 0)
admitted-le-given_example =
    admitted-le-given digest "bob" codes
      (issues 10 draws "bob" ∷ verifies 20 "bob" "1234" ∷ verifies 21 "bob" "1234" ∷ [])

verify_lem_example :
    ((e : OtpEntry) × (lookup "bob" open_codes.codes ≡ some e)
      × (20 ≤ e.expires)
      × (e.hash ≡ hash_code digest "1234")
      × (verify digest 20 "bob" "1234" open_codes
          ≡ (true, record open_codes { codes = delete "bob" open_codes.codes })))
    ⊎ ((verify digest 20 "bob" "1234" open_codes ≡ (false, open_codes))
        × ((e : OtpEntry)
            → lookup "bob" open_codes.codes ≡ some e
            → 20 ≤ e.expires
            → e.hash ≢ hash_code digest "1234"))
verify_lem_example = verify_lem digest 20 "bob" "1234" open_codes

issue-verify_example :
    let s' = (issue digest 10 draws "bob" codes).1 in
    let r = verify digest 60 "bob" "1234" s' in
    (r.0 ≡ true) × ((verify digest 61 "bob" "1234" r.1).0 ≡ false)
unfolding issue must_wait lookup random_digits draw_digits digit store_code entry_for
issue-verify_example =
    issue-verify digest 10 60 61 draws "bob" "1234" "1234" codes refl (omega arith)

issue_failing_example :
    let r = issue digest 10 (none ∷ []) "bob" codes in
    (r.0 ≡ issued (dashes codes.length))
    × ((verify digest 60 "bob" (dashes codes.length) r.1).0 ≡ true)
unfolding must_wait lookup draw_digits entry_for
issue_failing_example =
    issue_failing digest 10 60 (none ∷ []) "bob" codes refl (omega arith) refl (omega arith)

sha1_hmac : (key msg : List ℕ) → length (hmac key msg) ≡ 20
sha1_hmac key msg = refl

verify_totp_lem_example :
    (b : Bool) × (verify_totp hmac hashes.to_upper hashes.base32 "KEY" "084278" 60000000000
      ≡ some b)
    × ((b ≡ true) ↔ (
        (x : ℕ) × (key : List ℕ) × (hashes.base32 (hashes.to_upper (trim_space "KEY"))
          ≡ some (x ∷ key))
        × Fits hmac sha1_hmac (x ∷ key) (trim_space "084278") (counters 60000000000)))
verify_totp_lem_example =
    verify_totp_lem hmac sha1_hmac hashes.to_upper hashes.base32 "KEY" "084278" 60000000000

verify_totp_skew_example :
    verify_totp hmac hashes.to_upper hashes.base32 "KEY" "281096" 60000000000 ≡ some true
unfolding hotp truncate byte_at six_digits big_endian digit trim_space
verify_totp_skew_example =
    verify_totp_skew hmac sha1_hmac hashes.to_upper hashes.base32 "KEY" "281096" 60000000000
      30000000000 7 [] refl (omega arith) (omega arith) (omega arith) refl
