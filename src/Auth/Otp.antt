-- ===== src/Auth/Otp.antt =====
-- auth/otp.go. The mutex makes each method one step. The clock's reading is an argument, and so are
-- the draws from the source of randomness, none for a draw that fails; the digest is a parameter.
pub mod Laws
pub mod History
pub mod Marker
use Prim.Native.String.{◌++◌ as str_append}
use xal_tor_ka.Base.{
  ℕ, zero, suc, ◌+◌, ◌-◌, ◌*◌, ◌/◌, ◌%◌, ◌^◌, ◌≤◌, ◌<◌, String, Char, code, ◌≡◌, refl, sym, ap, ◌∙◌,
  ◌≢◌, ◌↔◌, ◌⊎◌, inl, inr, Bool, true, false, not, ◌&&◌, ◌||◌, Option, none, some, List, [], ◌∷◌,
  ◌++◌, map, arith, ◌==◌, eq_iff, eq_refl, ltb, leb, eqb, if◌then◌else◌, ltb→lt, lt→ltb, leb→le,
  ltb→le, eqb→eq, eqb_refl, Bool-cases, Option-cases, is_some, and→both, both→and, or→either,
  length, take, drop, length-append, length-take, length-drop, take-append-drop, any, all, keep, In,
  All, All-append, All-map, All-at, All-of, In-append_left, In-append_right, In-append, any→In,
  In→any, any-eq-false, all→All, keep-In, In-keep, has_prefix, trim_right, trim_char, index_char,
  has_char, has_prefix→append, has_prefix-append, trim_char-lacks, len-cons, len-nil, len-cons-pos,
  has_prefix_unique, has_prefix_refl, has_prefix_shorter, eq-nil_of_len, ne-nil_of_len, Dict,
  lookup, insert, delete, has_key, lookup-insert, lookup-insert_self, lookup-delete, dict_laws, ℤ,
  pos, negsuc, sub_ℕ, ltb_ℤ, is_pos, add_clamped,
}

pub record OtpEntry : Type 0 where
  pub hash : String
  pub issued : ℕ
  pub expires : ℕ

pub record OtpStore : Type 0 where
  pub codes : Dict OtpEntry
  pub ttl : ℤ
  pub cooldown : ℤ
  pub length : ℕ

-- the length that NewOTPStore settles on
unfoldable pub code_length : ℤ → ℕ
code_length (negsuc n) = 6
code_length (pos n) = if ltb n 4 then 6 else n

unfoldable pub new_otp_store : ℤ → ℤ → ℤ → OtpStore
new_otp_store ttl cooldown length = record {
  codes = [];
  ttl = ttl;
  cooldown = cooldown;
  length = code_length length;
}

-- digits[k], for k below 10
unfoldable pub digit : ℕ → String
digit zero = "0"
digit (suc zero) = "1"
digit (suc (suc zero)) = "2"
digit (suc (suc (suc zero))) = "3"
digit (suc (suc (suc (suc zero)))) = "4"
digit (suc (suc (suc (suc (suc zero))))) = "5"
digit (suc (suc (suc (suc (suc (suc zero)))))) = "6"
digit (suc (suc (suc (suc (suc (suc (suc zero))))))) = "7"
digit (suc (suc (suc (suc (suc (suc (suc (suc zero)))))))) = "8"
digit (suc (suc (suc (suc (suc (suc (suc (suc (suc n))))))))) = "9"

-- the loop of randomDigits; none where a draw fails
unfoldable pub draw_digits : ℕ → List (Option ℕ) → Option String
draw_digits zero draws = some ""
draw_digits (suc n) [] = none
draw_digits (suc n) (none ∷ draws) = none
draw_digits (suc n) (some k ∷ draws) = elim (draw_digits n draws) [
  | none ↦ none
  | some rest ↦ some (str_append (digit k) rest)
]

unfoldable pub dashes : ℕ → String
dashes zero = ""
dashes (suc n) = str_append "-" (dashes n)

-- "----------"[:n], which panics beyond ten
unfoldable pub marker : ℕ → Option String
marker n = if leb n 10 then some (dashes n) else none

-- randomDigits; none is the panic
unfoldable pub random_digits : ℕ → List (Option ℕ) → Option String
random_digits n draws = elim (draw_digits n draws) [ none ↦ marker n | some code ↦ some code ]

pub data Issued : Type 0 where
  refused : Issued
  issued : String → Issued
  panicked : Issued

-- now.Sub(e.issued) < s.cooldown
unfoldable pub is_cooling : OtpStore → ℕ → OtpEntry → Bool
is_cooling s now e = ltb_ℤ (sub_ℕ now e.issued) s.cooldown

unfoldable pub must_wait : OtpStore → ℕ → Option OtpEntry → Bool
must_wait s now none = false
must_wait s now (some e) = is_cooling s now e

module _ (digest : String → String) where
  unfoldable pub hash_code : String → String
  hash_code code = digest (str_append "xtk-otp:" code)

  unfoldable pub entry_for : OtpStore → ℕ → String → OtpEntry
  entry_for s now code = record {
    hash = hash_code code;
    issued = now;
    expires = add_clamped now s.ttl;
  }

  unfoldable pub store_code : ℕ → String → OtpStore → Option String → Issued × OtpStore
  store_code now email s none = (panicked, s)
  store_code now email s (some code) =
      (issued code, record s { codes = insert email (entry_for s now code) s.codes })

  -- Issue
  unfoldable pub issue : ℕ → List (Option ℕ) → String → OtpStore → Issued × OtpStore
  issue now draws email s =
      if must_wait s now (lookup email s.codes)
      then (refused, s)
      else store_code now email s (random_digits s.length draws)

  unfoldable pub check_entry : ℕ → String → String → OtpEntry → OtpStore → Bool × OtpStore
  check_entry now email code e s =
      if ltb e.expires now
      then (false, s)
      else if not (e.hash == hash_code code)
      then (false, s)
      else (true, record s { codes = delete email s.codes })

  -- Verify
  unfoldable pub verify : ℕ → String → String → OtpStore → Bool × OtpStore
  verify now email code s = elim (lookup email s.codes) [
    | none ↦ (false, s)
    | some e ↦ check_entry now email code e s
  ]
