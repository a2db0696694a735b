-- ===== src/Auth/Totp/Laws.antt =====
-- auth/totp.go: totality, the six digits, and the tolerated clock skew.
use Prim.Native.String.{len}
use text.Mathlib.TextPositions.{len-append}
use xal_tor_ka.Base.{
  ℕ, zero, suc, ◌+◌, ◌-◌, ◌*◌, ◌/◌, ◌%◌, ◌^◌, ◌≤◌, ◌<◌, String, ◌≡◌, refl, sym, ap, ◌∙◌, ◌↔◌, inl,
  inr, Bool, true, false, Option, some, List, [], ◌∷◌, arith, ◌==◌, eq_iff, Bool-cases,
  Option-cases, some_eq, length, In, trim_space,
}
use xal_tor_ka.Auth.Otp.Marker.{len-digit}
use xal_tor_ka.Auth.Totp.{
  totp_step, byte_at, big_endian, six_digits, truncate, counters, hotp, try_counters, check_key,
  verify_totp,
}
use mathlib.Core.Path.{subst}

byte_at_total : (bs : List ℕ) (i : ℕ) → i < length bs → (b : ℕ) × (byte_at bs i ≡ some b)
unfolding byte_at
byte_at_total [] i h = elim h [ ]
byte_at_total (b ∷ bs) zero h = (b, refl)
byte_at_total (b ∷ bs) (suc i) h = byte_at_total bs i (omega arith)

truncate_total : (sum : List ℕ) → length sum ≡ 20 → (v : ℕ) × (truncate sum ≡ some v)
unfolding truncate
truncate_total sum n =
    let (last, e) = byte_at_total sum (length sum - 1) (omega arith) in
    let off = last % 16 in
    let (b0, e0) = byte_at_total sum off (omega arith) in
    let (b1, e1) = byte_at_total sum (off + 1) (omega arith) in
    let (b2, e2) = byte_at_total sum (off + 2) (omega arith) in
    let (b3, e3) = byte_at_total sum (off + 3) (omega arith) in
    (
      b0 % 128 * 2 ^ 24 + b1 * 2 ^ 16 + b2 * 2 ^ 8 + b3,
      rw (e, truncate) (rw (e0, e1, e2, e3, truncate) refl),
    )

len-six_digits : (n : ℕ) → len (six_digits n) ≡ 6
unfolding six_digits
len-six_digits n = simp (len-append, len-digit)

counters_near :
    (t t' : ℕ)
    → t / 1000000000 < 2 ^ 63
    → t' / 1000000000 ≤ t / 1000000000 + 30
    → t / 1000000000 ≤ t' / 1000000000 + 30
    → In (t' / 1000000000 / totp_step) (counters t)
unfolding counters
counters_near t t' small h k = ground (arith)

module _ (hmac_sha1 : List ℕ → List ℕ → List ℕ)
    (sha1_length : (key msg : List ℕ) → length (hmac_sha1 key msg) ≡ 20) where
  -- No index is out of range, and a code has six characters.
  pub hotp_total :
      (key : List ℕ) (counter : ℕ)
      → (c : String) × (hotp hmac_sha1 key counter ≡ some c) × (len c ≡ 6)
  unfolding hotp
  hotp_total key counter =
      let (v, e) =
        truncate_total (hmac_sha1 key (big_endian counter))
          (sha1_length key (big_endian counter)) in
      (six_digits (v % 1000000), rw (e, hotp) refl, len-six_digits (v % 1000000))

  -- The code fits the key at one of the counters.
  abbrev pub Fits : List ℕ → String → List ℕ → Type 0
  Fits key c cs = (k : ℕ) × In k cs × (hotp hmac_sha1 key k ≡ some c)

  Fits-tail :
      (key : List ℕ) (h c : String) (k : ℕ) (cs : List ℕ)
      → hotp hmac_sha1 key k ≡ some h
      → (h == c) ≡ false
      → Fits key c (k ∷ cs)
      → Fits key c cs
  Fits-tail key h c k cs e d (j, inl i, p) = cc (sym d ∙ (eq_iff h c).1 (fit_eq i p))
    where
      fit_eq : j ≡ k → hotp hmac_sha1 key j ≡ some c → h ≡ c
      fit_eq i p = some_eq (sym e ∙ ap (hotp hmac_sha1 key) (sym i) ∙ p)
  Fits-tail key h c k cs e d (j, inr i, p) = (j, i, p)

  try_counters_total :
      (key : List ℕ) (c : String) (cs : List ℕ)
      → (b : Bool) × (try_counters hmac_sha1 key c cs ≡ some b) × ((b ≡ true) ↔ Fits key c cs)
  unfolding try_counters
  try_counters_total key c [] = (false, refl, ((λ q. cc), (λ (k, i, _). absurd i)))
  try_counters_total key c (k ∷ cs) =
      let (h, e, _) = hotp_total key k in
      let (b, q, (f, g)) = try_counters_total key c cs in
      elim (Bool-cases (h == c)) [
        | inl s ↦ (
          true,
          rw (e, try_counters) (rw s refl),
          ((λ _. (k, inl refl, e ∙ ap some ((eq_iff h c).0 s))), (λ _. refl)),
        )
        | inr d ↦ (
          b,
          rw (e, try_counters) (rw (d, q) refl),
          (
            (λ t. let (j, i, p) = f t in (j, inr i, p)),
            (λ fits. g (Fits-tail key h c k cs e d fits)),
          ),
        )
      ]

  module _ (to_upper : String → String) (base32 : String → Option (List ℕ)) where
    -- VerifyTOTP always returns, and accepts exactly a code that, without its outer space, is the
    -- key's at the step of the clock, the one before or the one after, for a secret that decodes to
    -- a key of at least one byte.
    pub verify_totp_lem :
        (secret c : String) (t : ℕ)
        → (b : Bool) × (verify_totp hmac_sha1 to_upper base32 secret c t ≡ some b)
          × ((b ≡ true) ↔ (
              (x : ℕ) × (key : List ℕ) × (base32 (to_upper (trim_space secret)) ≡ some (x ∷ key))
              × Fits (x ∷ key) (trim_space c) (counters t)))
    unfolding verify_totp check_key
    verify_totp_lem secret c t = elim (Option-cases (base32 (to_upper (trim_space secret)))) [
      | inl e ↦ (false, rw (e, verify_totp) refl, ((λ q. cc), (λ (x, key, k, _). cc)))
      | inr ([], e) ↦ (
        false,
        rw (e, verify_totp) refl,
        ((λ q. cc), (λ (x, key, k, _). cc (some_eq (sym e ∙ k)))),
      )
      | inr (x ∷ key, e) ↦
          let (b, q, (f, g)) = try_counters_total (x ∷ key) (trim_space c) (counters t) in
          (
            b,
            rw (e, verify_totp) q,
            (
              (λ h. (x, key, e, f h)),
              (λ (y, key', k, fits).
                  g (subst (λ w. Fits w (trim_space c) (counters t)) (some_eq (sym k ∙ e)) fits)),
            ),
          )
    ]

    -- A code made for an instant is accepted at every instant at most thirty seconds away.
    pub verify_totp_skew :
        (secret c : String) (t t' x : ℕ) (key : List ℕ)
        → base32 (to_upper (trim_space secret)) ≡ some (x ∷ key)
        → t / 1000000000 < 2 ^ 63
        → t' / 1000000000 ≤ t / 1000000000 + 30
        → t / 1000000000 ≤ t' / 1000000000 + 30
        → hotp hmac_sha1 (x ∷ key) (t' / 1000000000 / totp_step) ≡ some (trim_space c)
        → verify_totp hmac_sha1 to_upper base32 secret c t ≡ some true
    verify_totp_skew secret c t t' x key e small h k made =
        let (b, q, (f, g)) = verify_totp_lem secret c t in
        q ∙ ap some (g (x, key, e, (_, counters_near t t' small h k, made)))
