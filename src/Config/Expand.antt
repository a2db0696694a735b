-- ===== src/Config/Expand.antt =====
-- config/expand.go: ${NAME} and ${NAME:-default} in the text of a configuration. The environment is
-- an argument. The loop is on fuel: the number of characters is enough.
pub mod Laws
use Prim.Native.String
use Prim.Native.String.{◌∷◌ as char_cons, ◌++◌ as str_append}
use xal_tor_ka.Base.{
  ℕ, zero, suc, ◌+◌, ◌-◌, ◌*◌, ◌/◌, ◌%◌, ◌^◌, ◌≤◌, ◌<◌, String, Char, code, ◌≡◌, refl, sym, ap, ◌∙◌,
  ◌≢◌, ◌↔◌, ◌⊎◌, inl, inr, Bool, true, false, not, ◌&&◌, ◌||◌, Option, none, some, List, [], ◌∷◌,
  ◌++◌, map, arith, ◌==◌, eq_iff, eq_refl, ltb, leb, eqb, if◌then◌else◌, ltb→lt, lt→ltb, leb→le,
  ltb→le, eqb→eq, eqb_refl, Bool-cases, Option-cases, some_eq, is_some, and→both, both→and,
  or→either, length, take, drop, length-append, length-take, length-drop, take-append-drop, any,
  all, keep, In, All, All-append, All-map, All-at, All-of, In-append_left, In-append_right,
  In-append, any→In, In→any, any-eq-false, all→All, keep-In, In-keep, has_prefix, trim_right,
  trim_char, index_char, has_char, trim_space, ne→false, false→ne, last_index_char,
  has_prefix→append, has_prefix-append, trim_char-lacks, len-cons, len-nil, len-cons-pos,
  has_prefix_unique, has_prefix_refl, has_prefix_shorter, eq-nil_of_len, ne-nil_of_len, Dict,
  lookup, insert, delete, has_key, lookup-insert, lookup-insert_self, lookup-delete, dict_laws, ℤ,
  pos, negsuc, sub_ℕ, ltb_ℤ, is_pos, add_clamped,
}
use xal_tor_ka.Config.Validate.{drop_char}

-- expr[:idx] and expr[idx+2:] for the first ":-"; none where there is none
unfoldable pub split_default : String → Option (String × String)
split_default String.[] = none
split_default (String.◌∷◌ c s) =
    let found : Option (String × String) = elim (split_default s) [
      | none ↦ none
      | some (a, b) ↦ some (char_cons c a, b)
    ] in
    if eqb (code c) b':' && has_prefix s "-" then some ("", drop_char s) else found

-- the value of a variable that is set and not empty
unfoldable pub value_or : Option String → String → String
value_or none def = def
value_or (some v) def = if v == "" then def else v

-- resolveExpr
unfoldable pub resolve_expr : (String → Option String) → String → String
resolve_expr env expr = elim (split_default expr) [
  | none ↦ value_or (env expr) ""
  | some (name, def) ↦ value_or (env name) def
]

-- the expression of a reference that begins at c, and the text behind it
unfoldable pub reference : Char → String → Option (String × String)
reference c s =
    if eqb (code c) b'$' && has_prefix s "{" then index_char b'}' (drop_char s) else none

-- the loop of expandEnv
unfoldable pub expand : ℕ → (String → Option String) → String → String
expand zero env s = ""
expand (suc n) env String.[] = ""
expand (suc n) env (String.◌∷◌ c s) = elim (reference c s) [
  | none ↦ char_cons c (expand n env s)
  | some (expr, behind) ↦ str_append (resolve_expr env expr) (expand n env behind)
]

-- the number of characters
unfoldable pub count : String → ℕ
count String.[] = 0
count (String.◌∷◌ c s) = suc (count s)

-- expandEnv
unfoldable pub expand_env : (String → Option String) → String → String
expand_env env s = expand (suc (count s)) env s
