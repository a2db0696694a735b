-- ===== src/Auth/Directory.antt =====
-- auth/directory.go. The lock makes each method one step.
pub mod Laws
use xal_tor_ka.Base.{
  ℕ, zero, suc, ◌+◌, ◌-◌, ◌*◌, ◌/◌, ◌%◌, ◌^◌, ◌≤◌, ◌<◌, String, Char, code, ◌≡◌, refl, sym, ap, ◌∙◌,
  ◌≢◌, ◌↔◌, ◌⊎◌, inl, inr, Bool, true, false, not, ◌&&◌, ◌||◌, Option, none, some, List, [], ◌∷◌,
  ◌++◌, map, arith, ◌==◌, eq_iff, eq_refl, ltb, leb, eqb, if◌then◌else◌, ltb→lt, lt→ltb, leb→le,
  ltb→le, eqb→eq, eqb_refl, Bool-cases, Option-cases, some_eq, is_some, and→both, both→and,
  or→either, length, take, drop, length-append, length-take, length-drop, take-append-drop, any,
  all, keep, In, All, All-append, All-map, All-at, All-of, In-append_left, In-append_right,
  In-append, any→In, In→any, any-eq-false, all→All, keep-In, In-keep, has_prefix, trim_right,
  trim_char, index_char, has_char, trim_space, has_prefix→append, has_prefix-append,
  trim_char-lacks, len-cons, len-nil, len-cons-pos, has_prefix_unique, has_prefix_refl,
  has_prefix_shorter, eq-nil_of_len, ne-nil_of_len, Dict, lookup, insert, delete, has_key,
  lookup-insert, lookup-insert_self, lookup-delete, dict_laws, ℤ, pos, negsuc, sub_ℕ, ltb_ℤ, is_pos,
  add_clamped,
}
use xal_tor_ka.Models.Identity.{User, Users, Session, SetupToken, SetupState}

pub record UserDirectory : Type 0 where
  pub by_email : Dict User

-- m[u.Email] = u, for every user in turn
unfoldable pub index_users : Dict User → List User → Dict User
index_users m [] = m
index_users m (u ∷ us) = index_users (insert u.email u m) us

-- Replace
unfoldable pub replace : UserDirectory → List User → UserDirectory
replace d us = record { by_email = index_users [] us }

unfoldable pub new_user_directory : List User → UserDirectory
new_user_directory us = replace (record { by_email = [] }) us

-- Get
unfoldable pub get_user : UserDirectory → String → Option User
get_user d email = lookup email d.by_email

-- All
unfoldable pub all_users : UserDirectory → List User
all_users d = map (λ e. e.1) d.by_email

-- Count
unfoldable pub count_users : UserDirectory → ℕ
count_users d = length d.by_email
