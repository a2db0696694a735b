-- ===== src/Agent/Buffer.antt =====
-- agent/util.go: the buffer that keeps the front of a command's output.
pub mod Laws
use xal_tor_ka.Base.{
  ℕ, zero, suc, ◌+◌, ◌-◌, ◌*◌, ◌/◌, ◌%◌, ◌^◌, ◌≤◌, ◌<◌, String, Char, code, ◌≡◌, refl, sym, ap, ◌∙◌,
  ◌≢◌, ◌↔◌, ◌⊎◌, inl, inr, Bool, true, false, not, ◌&&◌, ◌||◌, Option, none, some, List, [], ◌∷◌,
  ◌++◌, map, arith, ◌==◌, eq_iff, eq_refl, ltb, leb, eqb, if◌then◌else◌, ltb→lt, lt→ltb, leb→le,
  ltb→le, eqb→eq, eqb_refl, Bool-cases, Option-cases, some_eq, is_some, and→both, both→and,
  or→either, length, take, drop, length-append, length-take, length-drop, take-append-drop, any,
  all, keep, In, All, All-append, All-map, All-at, All-of, In-append_left, In-append_right,
  In-append, any→In, In→any, any-eq-false, all→All, keep-In, In-keep, has_prefix, trim_right,
  trim_char, index_char, has_char, trim_space, ne→false, false→ne, last_index_char,
  has_prefix→append, has_prefix-append, trim_char-lacks, len-cons, len-nil, len-cons-pos,
  has_prefix_unique, has_prefix_refl, has_prefix_shorter, eq-nil_of_len, ne-nil_of_len, Dict,
  lookup, insert, delete, has_key, lookup-insert, lookup-insert_self, lookup-delete, dict_laws, ℤ,
  pos, negsuc, sub_ℕ, ltb_ℤ, is_pos, add_clamped,
}

abbrev pub max_capture : ℕ
max_capture = 262144

-- Write, which reports the full length; p[:room] and the whole of p
unfoldable pub write : List ℕ → List ℕ → List ℕ × ℕ
write p b =
    let room = max_capture - length b in
    (
      (if ltb 0 room then (if ltb room (length p) then b ++ take room p else b ++ p) else b),
      length p,
    )

-- the buffer after the writes of a command
unfoldable pub write_all : List (List ℕ) → List ℕ → List ℕ
write_all [] b = b
write_all (p ∷ ps) b = write_all ps (write p b).0
