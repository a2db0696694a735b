-- ===== src/Base/Text.antt =====
-- The functions of Go's package strings that the program calls, on the native text.
use Prim.Native.Nat.{ℕ, ◌+◌, ◌≤◌, ◌<◌}
use Prim.Native.Char.{Char, code, len_utf8}
use Prim.Native.String.{String, [], ◌∷◌, ◌++◌, len}
use Prim.Native.String.len
use mathlib.Core.Path.{◌≡◌, refl, sym, ap, ap₂, ◌∙◌}
use mathlib.Core.Logic.{◌≢◌, inl, inr}
use mathlib.Core.Bool.{Bool, true, false, ◌&&◌, ◌||◌}
use mathlib.Core.Option.{Option, none, some}
use native.Mathlib.Omega.{arith}
use text.Mathlib.Text.{◌==◌}
use text.Mathlib.TextEquality.{Char-path, eq_iff}
use text.Mathlib.TextLemmas.{nil-append, cons-append, append-nil, append_assoc}
use text.Mathlib.TextPositions.{len_utf8-pos}
use xal_tor_ka.Base.Tests.{if◌then◌else◌, leb, eqb, eqb→eq, eqb_refl, Bool-cases}

-- strings.HasPrefix(s, p)
unfoldable pub has_prefix : String → String → Bool
has_prefix s [] = true
has_prefix [] (c ∷ p) = false
has_prefix (d ∷ s) (c ∷ p) = eqb (code d) (code c) && has_prefix s p

-- strings.TrimRight(s, c) for a cutset of one character
unfoldable pub trim_right : ℕ → String → String
trim_right k [] = []
trim_right k (c ∷ s) =
    let rest = trim_right k s in if eqb (code c) k && rest == "" then [] else c ∷ rest

-- strings.IndexByte(s, k) >= 0
unfoldable pub has_char : ℕ → String → Bool
has_char k [] = false
has_char k (c ∷ s) = eqb (code c) k || has_char k s

-- s[:i] for i the first place of k in s, s itself where there is none
unfoldable pub trim_char : ℕ → String → String
trim_char k [] = []
trim_char k (c ∷ s) = let rest = trim_char k s in if eqb (code c) k then [] else c ∷ rest

-- strings.IndexByte(s, k): the text before the first k and the text after it
unfoldable pub index_char : ℕ → String → Option (String × String)
index_char k [] = none
index_char k (c ∷ s) =
    let found : Option (String × String) = elim (index_char k s) [
      | none ↦ none
      | some (a, b) ↦ some (c ∷ a, b)
    ] in
    if eqb (code c) k then some ([], s) else found

-- A text that begins with p is p with something behind it, and the other way round.
pub has_prefix→append : (s p : String) → has_prefix s p ≡ true → (rest : String) × (s ≡ p ++ rest)
unfolding has_prefix
has_prefix→append s [] h = (s, sym (nil-append s))
has_prefix→append [] (c ∷ p) h = cc
has_prefix→append (d ∷ s) (c ∷ p) h =
    let (rest, e) = has_prefix→append s p (ground arith) in
    let same : d ≡ c = Char-path d c (eqb→eq (code d) (code c) (ground arith)) in
    (rest, rw (cons-append, e, same))

pub has_prefix-append : (p rest : String) → has_prefix (p ++ rest) p ≡ true
unfolding has_prefix
has_prefix-append [] rest = refl
has_prefix-append (c ∷ p) rest =
    rw (cons-append, has_prefix) (rw (eqb_refl (code c)) (has_prefix-append p rest))

pub trim_char-lacks : (k : ℕ) (s : String) → has_char k (trim_char k s) ≡ false
unfolding trim_char has_char
trim_char-lacks k [] = refl
trim_char-lacks k (c ∷ s) = elim (Bool-cases (eqb (code c) k)) [
  | inl e ↦ rw e
  | inr e ↦ rw e (rw e (trim_char-lacks k s))
]

pub len-cons : (c : Char) (s : String) → len (c ∷ s) ≡ len_utf8 c + len s
len-cons c s = len.cons c s

pub len-nil : len [] ≡ 0
len-nil = len.nil

pub len-cons-pos : (c : Char) (s : String) → 0 < len (c ∷ s)
len-cons-pos c s = let (k, e) = len_utf8-pos c in omega (arith, len-cons c s, e)

-- Two prefixes of one text that have one length are one text.
pub has_prefix_unique :
    (s a b : String) → has_prefix s a ≡ true → has_prefix s b ≡ true → len a ≡ len b → a ≡ b
unfolding has_prefix
has_prefix_unique s [] [] h k e = refl
has_prefix_unique s [] (c ∷ b) h k e = absurd (omega (arith, len-cons-pos c b, len-nil))
has_prefix_unique s (c ∷ a) [] h k e = absurd (omega (arith, len-cons-pos c a, len-nil))
has_prefix_unique [] (c ∷ a) (d ∷ b) h k e = cc
has_prefix_unique (x ∷ s) (c ∷ a) (d ∷ b) h k e =
    let first : x ≡ c = Char-path x c (eqb→eq (code x) (code c) (ground arith)) in
    let other : x ≡ d = Char-path x d (eqb→eq (code x) (code d) (ground arith)) in
    let same : c ≡ d = sym first ∙ other in
    let rest =
      has_prefix_unique s a b (ground arith) (ground arith)
        (omega (arith, len-cons c a, len-cons d b, ap len_utf8 same)) in
    ap₂ ◌∷◌ same rest

pub has_prefix_refl : (s : String) → has_prefix s s ≡ true
has_prefix_refl s = rw (append-nil s) at (has_prefix-append s "")

-- A text that begins with p followed by q begins with p.
pub has_prefix_shorter : (s p q : String) → has_prefix s (p ++ q) ≡ true → has_prefix s p ≡ true
has_prefix_shorter s p q h =
    let (rest, e) = has_prefix→append s (p ++ q) h in
    rw (e, append_assoc p q rest) (has_prefix-append p (q ++ rest))

pub eq-nil_of_len : (s : String) → len s ≤ 0 → s ≡ ""
eq-nil_of_len [] h = refl
eq-nil_of_len (c ∷ s) h = absurd (omega (arith, len-cons-pos c s))

pub ne-nil_of_len : (s : String) → 0 < len s → (s == "") ≡ false
ne-nil_of_len s h = elim (Bool-cases (s == "")) [
  | inl e ↦ absurd (omega (arith, ap len ((eq_iff s "").0 e), len-nil))
  | inr e ↦ e
]

-- unicode.IsSpace, on a code point
unfoldable pub is_space : ℕ → Bool
is_space c =
    (leb 9 c && leb c 13)
    || eqb c 32
    || eqb c 0x85
    || eqb c 0xa0
    || eqb c 0x1680
    || (leb 0x2000 c && leb c 0x200a)
    || eqb c 0x2028
    || eqb c 0x2029
    || eqb c 0x202f
    || eqb c 0x205f
    || eqb c 0x3000

unfoldable pub trim_space_left : String → String
trim_space_left [] = []
trim_space_left (c ∷ s) = let rest = trim_space_left s in if is_space (code c) then rest else c ∷ s

unfoldable pub trim_space_right : String → String
trim_space_right [] = []
trim_space_right (c ∷ s) =
    let rest = trim_space_right s in if is_space (code c) && rest == "" then [] else c ∷ rest

-- strings.TrimSpace
unfoldable pub trim_space : String → String
unfolding is_space trim_space_left trim_space_right
trim_space s = trim_space_right (trim_space_left s)

-- the text before the last k and the text after it
unfoldable pub last_index_char : ℕ → String → Option (String × String)
last_index_char k [] = none
last_index_char k (c ∷ s) = elim (last_index_char k s) [
  | some (a, b) ↦ some (c ∷ a, b)
  | none ↦ if eqb (code c) k then some ([], s) else none
]

pub ne→false : (s t : String) → s ≢ t → (s == t) ≡ false
ne→false s t h = elim (Bool-cases (s == t)) [ inl e ↦ absurd (h ((eq_iff s t).0 e)) | inr e ↦ e ]

pub false→ne : (s t : String) → (s == t) ≡ false → s ≢ t
false→ne s t h e = cc (sym h ∙ (eq_iff s t).1 e)
