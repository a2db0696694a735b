-- ===== src/Auth/Otp/History.antt =====
-- auth/otp.go over a history of calls: codes are spent.
use xal_tor_ka.Base.{
  ℕ, ◌+◌, ◌≤◌, String, code, ap, inl, inr, Bool, true, false, ◌&&◌, Option, List, [], ◌∷◌, arith,
  ◌==◌, eq_iff, if◌then◌else◌, is_some, lookup, lookup-insert, lookup-delete,
}
use xal_tor_ka.Auth.Otp.{OtpStore, Issued, issued, entry_for, issue, verify}
use xal_tor_ka.Auth.Otp.Laws.{verify_lem, issue_lem}

pub data Call : Type 0 where
  issues : (now : ℕ) → List (Option ℕ) → (email : String) → Call
  verifies : (now : ℕ) → (email code : String) → Call

module _ (digest : String → String) where
  unfoldable pub step : OtpStore → Call → OtpStore
  step s (issues now draws email) = (issue digest now draws email s).1
  step s (verifies now email code) = (verify digest now email code s).1

  abbrev is_issued : Issued → Bool
  is_issued (issued c) = true
  is_issued _ = false

  -- the call gave the address a code
  unfoldable pub gives : String → OtpStore → Call → ℕ
  gives email s (issues now draws other) =
      if other == email && is_issued (issue digest now draws other s).0 then 1 else 0
  gives email s (verifies now other code) = 0

  -- the call let the address in
  unfoldable pub admits : String → OtpStore → Call → ℕ
  admits email s (issues now draws other) = 0
  admits email s (verifies now other code) =
      if other == email && (verify digest now other code s).0 then 1 else 0

  unfoldable pub given : String → OtpStore → List Call → ℕ
  given email s [] = 0
  given email s (c ∷ cs) = gives email s c + given email (step s c) cs

  unfoldable pub admitted : String → OtpStore → List Call → ℕ
  admitted email s [] = 0
  admitted email s (c ∷ cs) = admits email s c + admitted email (step s c) cs

  abbrev open_codes : String → OtpStore → ℕ
  open_codes email s = if is_some (lookup email s.codes) then 1 else 0

  spend_step :
      (email : String) (s : OtpStore) (c : Call)
      → admits email s c + open_codes email (step s c) ≤ gives email s c + open_codes email s
  unfolding step gives admits
  spend_step email s (issues now draws other) = elim (issue_lem digest now draws other s) [
    | inl (_, k) ↦
        ground (arith, ap (λ r. r.0) k, ap (λ (r : Issued × OtpStore). lookup email r.1.codes) k)
    | inr (inl (_, _, k)) ↦
        ground (arith, ap (λ r. r.0) k, ap (λ (r : Issued × OtpStore). lookup email r.1.codes) k)
    | inr (inr (d, _, _, k)) ↦ ground (
      arith,
      ap (λ r. r.0) k,
      ap (λ (r : Issued × OtpStore). lookup email r.1.codes) k,
      lookup-insert other email (entry_for digest s now d) s.codes,
      eq_iff other email,
    )
  ]
  spend_step email s (verifies now other tried) = elim (verify_lem digest now other tried s) [
    | inl (e, q, _, _, k) ↦ ground (
      arith,
      ap (λ r. r.0) k,
      ap (λ (r : Bool × OtpStore). lookup email r.1.codes) k,
      lookup-delete other email s.codes,
      eq_iff other email,
      q,
    )
    | inr (k, _) ↦
        ground (arith, ap (λ r. r.0) k, ap (λ (r : Bool × OtpStore). lookup email r.1.codes) k)
  ]

  -- However the calls are interleaved, an address is let in at most as often as it was given a code,
  -- plus once for a code that was open at the start.
  pub admitted-le-given :
      (email : String) (s : OtpStore) (cs : List Call)
      → admitted email s cs ≤ given email s cs + (if is_some (lookup email s.codes) then 1 else 0)
  unfolding admitted given
  admitted-le-given email s [] = omega arith
  admitted-le-given email s (c ∷ cs) =
      omega (arith, spend_step email s c, admitted-le-given email (step s c) cs)
