-- ===== src/Auth/Otp/Marker.antt =====
-- auth/otp.go, randomDigits: the shape of a code, and the marker for a failing source.
use Prim.Native.String.{len, ◌++◌ as str_append}
use text.Mathlib.TextPositions.{len-append}
use xal_tor_ka.Base.{
  ℕ, zero, suc, ◌≤◌, String, ◌≡◌, refl, sym, ap, ◌∙◌, inl, inr, true, false, Option, none, some,
  List, [], ◌∷◌, arith, leb, Bool-cases, Option-cases, some_eq, len-nil, lookup, ℤ, pos, negsuc,
}
use xal_tor_ka.Auth.Otp.{
  OtpStore, code_length, digit, draw_digits, dashes, marker, random_digits, issued, must_wait,
  entry_for, issue, verify,
}
use xal_tor_ka.Auth.Otp.Laws.{issue_lem, issue-verify}

pub len-digit : (k : ℕ) → len (digit k) ≡ 1
unfolding digit
len-digit zero = refl
len-digit (suc zero) = refl
len-digit (suc (suc zero)) = refl
len-digit (suc (suc (suc zero))) = refl
len-digit (suc (suc (suc (suc zero)))) = refl
len-digit (suc (suc (suc (suc (suc zero))))) = refl
len-digit (suc (suc (suc (suc (suc (suc zero)))))) = refl
len-digit (suc (suc (suc (suc (suc (suc (suc zero))))))) = refl
len-digit (suc (suc (suc (suc (suc (suc (suc (suc zero)))))))) = refl
len-digit (suc (suc (suc (suc (suc (suc (suc (suc (suc n))))))))) = refl

len-dashes : (n : ℕ) → len (dashes n) ≡ n
unfolding dashes
len-dashes zero = len-nil
len-dashes (suc n) = omega (arith, len-append "-" (dashes n), len-dashes n, dash)
  where
    dash : len "-" ≡ 1
    dash = refl

len-draw_digits :
    (n : ℕ) (draws : List (Option ℕ)) (c : String) → draw_digits n draws ≡ some c → len c ≡ n
unfolding draw_digits
len-draw_digits zero draws c h = ap len (sym (some_eq h)) ∙ len-nil
len-draw_digits (suc n) [] c h = cc
len-draw_digits (suc n) (none ∷ draws) c h = cc
len-draw_digits (suc n) (some k ∷ draws) c h = elim (Option-cases (draw_digits n draws)) [
  | inl e ↦ cc (rw (e, draw_digits) at h)
  | inr (rest, e) ↦
      let same : str_append (digit k) rest ≡ c = some_eq (rw (e, draw_digits) at h) in
      omega
        (arith, ap len same, len-append (digit k) rest, len-digit k, len-draw_digits n draws rest e)
]

random_digits_failed :
    (n : ℕ) (draws : List (Option ℕ))
    → draw_digits n draws ≡ none
    → random_digits n draws ≡ marker n
unfolding random_digits
random_digits_failed n draws e = rw (e, random_digits) refl

random_digits_drawn :
    (n : ℕ) (draws : List (Option ℕ)) (d : String)
    → draw_digits n draws ≡ some d
    → random_digits n draws ≡ some d
unfolding random_digits
random_digits_drawn n draws d e = rw (e, random_digits) refl

len-marker : (n : ℕ) (c : String) → marker n ≡ some c → len c ≡ n
unfolding marker
len-marker n c h = elim (Bool-cases (leb n 10)) [
  | inl k ↦ ap len (sym (some_eq (rw k at h))) ∙ len-dashes n
  | inr k ↦ cc (rw k at h)
]

-- Every code, the marker included, has the length of the store.
pub len-random_digits :
    (n : ℕ) (draws : List (Option ℕ)) (c : String) → random_digits n draws ≡ some c → len c ≡ n
len-random_digits n draws c h = elim (Option-cases (draw_digits n draws)) [
  | inl e ↦ len-marker n c (sym (random_digits_failed n draws e) ∙ h)
  | inr (d, e) ↦ len-draw_digits n draws c (e ∙ (sym (random_digits_drawn n draws d e) ∙ h))
]

-- Where the source of randomness fails, Issue hands out the marker of dashes, which anyone can type,
-- and Verify lets it in.
pub issue_failing :
    (digest : String → String) (now later : ℕ) (draws : List (Option ℕ)) (email : String)
    (s : OtpStore)
    → must_wait s now (lookup email s.codes) ≡ false
    → s.length ≤ 10
    → draw_digits s.length draws ≡ none
    → later ≤ (entry_for digest s now (dashes s.length)).expires
    → let r = issue digest now draws email s in
      (r.0 ≡ issued (dashes s.length))
      × ((verify digest later email (dashes s.length) r.1).0 ≡ true)
unfolding random_digits marker
issue_failing digest now later draws email s free fits fails w =
    let drawn : random_digits s.length draws ≡ some (dashes s.length) =
      rw (fails, random_digits) (ground (arith)) in
    let shown : (issue digest now draws email s).0 ≡ issued (dashes s.length) =
      elim (issue_lem digest now draws email s) [
        | inl (k, _) ↦ cc
        | inr (inl (_, k, _)) ↦ cc
        | inr (inr (c, _, k, q)) ↦ ap (λ r. r.0) q ∙ ap issued (some_eq (sym k ∙ drawn))
      ] in
    (shown, (issue-verify digest now later later draws email (dashes s.length) "" s shown w).0)

-- NewOTPStore keeps any length from 4 on, and never settles below it.
pub code_length_lem : (n : ℤ) → 4 ≤ code_length n
unfolding code_length
code_length_lem (negsuc n) = omega arith
code_length_lem (pos n) = ground arith
