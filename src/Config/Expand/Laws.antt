-- ===== src/Config/Expand/Laws.antt =====
-- config/expand.go: the loop ends, and a text without a reference stays as it is.
use Prim.Native.String.{◌∷◌ as char_cons, ◌++◌ as str_append}
use xal_tor_ka.Base.{
  ℕ, zero, suc, ◌≤◌, ◌<◌, String, Char, code, ◌≡◌, refl, ap, inl, inr, false, ◌&&◌, Option, none,
  some, arith, eqb, Bool-cases, Option-cases, some_eq, has_prefix, index_char, has_char,
}
use xal_tor_ka.Config.Validate.{drop_char}
use xal_tor_ka.Config.Expand.{resolve_expr, reference, expand, count, expand_env}

count-drop : (s : String) → count (drop_char s) ≤ count s
unfolding count drop_char
count-drop String.[] = omega arith
count-drop (String.◌∷◌ c s) = omega arith

count-index : (k : ℕ) (s a b : String) → index_char k s ≡ some (a, b) → count b < count s
unfolding count index_char
count-index k String.[] a b h = cc
count-index k (String.◌∷◌ c s) a b h = elim (Bool-cases (eqb (code c) k)) [
  | inl e ↦
      let same : s ≡ b = ap (λ x. x.1) (some_eq (rw (e, index_char) at h)) in
      omega (arith, ap count same)
  | inr e ↦ elim (Option-cases (index_char k s)) [
    | inl q ↦ absurd (cc (rw (e, q, index_char) at h))
    | inr ((x, y), q) ↦
        let same : y ≡ b = ap (λ x. x.1) (some_eq (rw (e, q, index_char) at h)) in
        omega (arith, count-index k s x y q, ap count same)
  ]
]

reference-shorter :
    (c : Char) (s expr behind : String)
    → reference c s ≡ some (expr, behind)
    → count behind ≤ count s
unfolding reference
reference-shorter c s expr behind h = elim (Bool-cases (eqb (code c) b'$' && has_prefix s "{")) [
  | inr e ↦ absurd (cc (rw (e, reference) at h))
  | inl e ↦
      let shorter = count-index b'}' (drop_char s) expr behind (rw (e, reference) at h) in
      omega (arith, shorter, count-drop s)
]

-- More rounds than the text has characters change nothing: the loop of expandEnv has ended by then,
-- whatever the environment says.
pub expand_enough :
    (env : String → Option String) (n m : ℕ) (s : String)
    → count s < n
    → count s < m
    → expand n env s ≡ expand m env s
unfolding expand count
expand_enough env zero m s h k = absurd (omega arith)
expand_enough env (suc n) zero s h k = absurd (omega arith)
expand_enough env (suc n) (suc m) String.[] h k = refl
expand_enough env (suc n) (suc m) (String.◌∷◌ c s) h k = elim (Option-cases (reference c s)) [
  | inl e ↦
      rw (e, expand) (ap (λ t. char_cons c t) (expand_enough env n m s (omega arith) (omega arith)))
  | inr ((expr, behind), e) ↦
      let short = reference-shorter c s expr behind e in
      rw (e, expand)
        (ap (λ t. str_append (resolve_expr env expr) t)
          (expand_enough env n m behind (omega (arith, short)) (omega (arith, short))))
]

plain :
    (env : String → Option String) (n : ℕ) (s : String)
    → count s < n
    → has_char b'$' s ≡ false
    → expand n env s ≡ s
unfolding expand count has_char reference
plain env zero s h k = absurd (omega arith)
plain env (suc n) String.[] h k = refl
plain env (suc n) (String.◌∷◌ c s) h k =
    let dollar : eqb (code c) b'$' ≡ false = ground arith in
    let rest : has_char b'$' s ≡ false = ground arith in
    let none_here : reference c s ≡ none = rw (dollar, reference) refl in
    rw (none_here, expand) (ap (λ t. char_cons c t) (plain env n s (omega arith) rest))

-- A text without a dollar sign is not changed.
pub expand_env-plain :
    (env : String → Option String) (s : String) → has_char b'$' s ≡ false → expand_env env s ≡ s
unfolding expand_env
expand_env-plain env s h = plain env (suc (count s)) s (omega arith) h
