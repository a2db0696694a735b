-- ===== src/Auth/Totp.antt =====
-- auth/totp.go. Decoding Base32, upper-casing and HMAC-SHA1 are parameters; the digest's length is
-- a hypothesis where a theorem needs it. An instant is a number of nanoseconds after 1970.
pub mod Laws
use Prim.Native.String.{◌++◌ as str_append}
use xal_tor_ka.Base.{
  ℕ, zero, suc, ◌+◌, ◌-◌, ◌*◌, ◌/◌, ◌%◌, ◌^◌, ◌≤◌, ◌<◌, String, Char, code, ◌≡◌, refl, sym, ap, ◌∙◌,
  ◌≢◌, ◌↔◌, ◌⊎◌, inl, inr, Bool, true, false, not, ◌&&◌, ◌||◌, Option, none, some, List, [], ◌∷◌,
  ◌++◌, map, arith, ◌==◌, eq_iff, eq_refl, ltb, leb, eqb, if◌then◌else◌, ltb→lt, lt→ltb, leb→le,
  ltb→le, eqb→eq, eqb_refl, Bool-cases, Option-cases, some_eq, is_some, and→both, both→and,
  or→either, length, take, drop, length-append, length-take, length-drop, take-append-drop, any,
  all, keep, In, All, All-append, All-map, All-at, All-of, In-append_left, In-append_right,
  In-append, any→In, In→any, any-eq-false, all→All, keep-In, In-keep, has_prefix, trim_right,
  trim_char, index_char, has_char, trim_space, has_prefix→append, has_prefix-append,
  trim_char-lacks, len-cons, len-nil, len-cons-pos, has_prefix_unique, has_prefix_refl,
  has_prefix_shorter, eq-nil_of_len, ne-nil_of_len, Dict, lookup, insert, delete, has_key,
  lookup-insert, lookup-insert_self, lookup-delete, dict_laws, ℤ, pos, negsuc, sub_ℕ, ltb_ℤ, is_pos,
  add_clamped,
}
use xal_tor_ka.Auth.Otp.{digit}

abbrev pub totp_step : ℕ
totp_step = 30

-- b[i], none out of range
unfoldable pub byte_at : List ℕ → ℕ → Option ℕ
byte_at [] i = none
byte_at (b ∷ bs) zero = some b
byte_at (b ∷ bs) (suc i) = byte_at bs i

-- binary.BigEndian.PutUint64
unfoldable pub big_endian : ℕ → List ℕ
big_endian n =
    n / 2 ^ 56 % 256
    ∷ n / 2 ^ 48 % 256
    ∷ n / 2 ^ 40 % 256
    ∷ n / 2 ^ 32 % 256
    ∷ n / 2 ^ 24 % 256
    ∷ n / 2 ^ 16 % 256
    ∷ n / 2 ^ 8 % 256
    ∷ n % 256
    ∷ []

-- fmt.Sprintf("%06d", n) for n below 1000000
unfoldable pub six_digits : ℕ → String
six_digits n = str_append (digit (n / 100000 % 10)) (
    str_append (digit (n / 10000 % 10)) (
      str_append (digit (n / 1000 % 10))
        (str_append (digit (n / 100 % 10)) (str_append (digit (n / 10 % 10)) (digit (n % 10))))))

infixl 5 ◌>>=◌
abbrev pub ◌>>=◌ {ℓ κ} : {A : Type ℓ} {B : Type κ} → Option A → (A → Option B) → Option B
none >>= k = none
some a >>= k = k a

-- The dynamic truncation of RFC 4226. The four fields of the word are disjoint, so | is +; none is
-- an index out of range.
unfoldable pub truncate : List ℕ → Option ℕ
truncate sum = do
  last ← byte_at sum (length sum - 1)
  let off = last % 16
  b0 ← byte_at sum off
  b1 ← byte_at sum (off + 1)
  b2 ← byte_at sum (off + 2)
  b3 ← byte_at sum (off + 3)
  some (b0 % 128 * 2 ^ 24 + b1 * 2 ^ 16 + b2 * 2 ^ 8 + b3)

-- The three counters of VerifyTOTP, in the order of its loop; uint64 wraps round.
unfoldable pub counters : ℕ → List ℕ
counters t =
    let counter = t / 1000000000 / totp_step in
    ((counter + 2 ^ 64 - 1) % 2 ^ 64) ∷ counter ∷ ((counter + 1) % 2 ^ 64) ∷ []

module _ (hmac_sha1 : List ℕ → List ℕ → List ℕ) where
  unfoldable pub hotp : List ℕ → ℕ → Option String
  hotp key counter = do
    v ← truncate (hmac_sha1 key (big_endian counter))
    some (six_digits (v % 1000000))

  unfoldable pub try_counters : List ℕ → String → List ℕ → Option Bool
  try_counters key code [] = some false
  try_counters key code (c ∷ cs) =
      let rest = try_counters key code cs in
      do h ← hotp key c; if h == code then some true else rest

  unfoldable pub check_key : String → ℕ → List ℕ → Option Bool
  check_key code t [] = some false
  check_key code t (k ∷ key) = try_counters (k ∷ key) (trim_space code) (counters t)

  -- VerifyTOTP; none is a panic
  unfoldable pub verify_totp :
      (String → String) → (String → Option (List ℕ)) → String → String → ℕ → Option Bool
  verify_totp to_upper base32 secret code t = elim (base32 (to_upper (trim_space secret))) [
    | none ↦ some false
    | some key ↦ check_key code t key
  ]
