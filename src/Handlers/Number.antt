-- ===== src/Handlers/Number.antt =====
-- strconv.Atoi as handlers/admin.go uses it where the error is ignored.
use xal_tor_ka.Base.{
  ℕ, zero, suc, ◌+◌, ◌-◌, ◌*◌, ◌^◌, String, code, not, ◌&&◌, Option, none, some, ltb, leb, eqb,
  if◌then◌else◌, ℤ, pos, negsuc,
}
use Prim.Native.String.{◌∷◌ as char_cons}

-- The digits of a number, up to the one that takes it out of a machine word; none is a character
-- that is no digit.
unfoldable pub digits_or_limit : ℕ → String → Option ℕ
digits_or_limit acc String.[] = some acc
digits_or_limit acc (String.◌∷◌ c s) =
    let n = acc * 10 + (code c - b'0') in
    let rest = digits_or_limit n s in
    if not (leb b'0' (code c) && leb (code c) b'9')
    then none
    else if leb (2 ^ 64) n
    then some n
    else rest

unfoldable pub magnitude : String → Option ℕ
magnitude String.[] = none
magnitude (String.◌∷◌ c s) = digits_or_limit 0 (char_cons c s)

unfoldable pub at_most : ℕ → ℕ → ℕ
at_most top n = if ltb top n then top else n

-- The number of n, _ := strconv.Atoi(s): 0 for a text that is no number, and the nearest int64 for
-- one out of range.
unfoldable pub atoi_value : String → ℤ
atoi_value String.[] = pos 0
atoi_value (String.◌∷◌ c s) =
    if eqb (code c) b'-'
    then elim (magnitude s) [
      | none ↦ pos 0
      | some zero ↦ pos 0
      | some (suc n) ↦ negsuc (at_most (2 ^ 63 - 1) n)
    ]
    else elim (magnitude (if eqb (code c) b'+' then s else char_cons c s)) [
      | none ↦ pos 0
      | some n ↦ pos (at_most (2 ^ 63 - 1) n)
    ]
