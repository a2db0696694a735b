-- ===== src/Providers/Ldap.antt =====
-- providers/ldap.go. The directory server and the formatting of the template are parameters.
pub mod Laws
use Prim.Native.String
use Prim.Native.String.{[] as empty, ◌∷◌ as char_cons, ◌++◌ as str_append}
use xal_tor_ka.Base.{
  ℕ, zero, suc, ◌+◌, ◌-◌, ◌*◌, ◌/◌, ◌%◌, ◌^◌, ◌≤◌, ◌<◌, String, Char, code, ◌≡◌, refl, sym, ap, ◌∙◌,
  ◌≢◌, ◌↔◌, ◌⊎◌, inl, inr, Bool, true, false, not, ◌&&◌, ◌||◌, Option, none, some, List, [], ◌∷◌,
  ◌++◌, map, arith, ◌==◌, eq_iff, eq_refl, ltb, leb, eqb, if◌then◌else◌, ltb→lt, lt→ltb, leb→le,
  ltb→le, eqb→eq, eqb_refl, Bool-cases, Option-cases, some_eq, is_some, and→both, both→and,
  or→either, length, take, drop, length-append, length-take, length-drop, take-append-drop, any,
  all, keep, In, All, All-append, All-map, All-at, All-of, In-append_left, In-append_right,
  In-append, any→In, In→any, any-eq-false, all→All, keep-In, In-keep, has_prefix, trim_right,
  trim_char, index_char, has_char, trim_space, ne→false, false→ne, last_index_char,
  has_prefix→append, has_prefix-append, trim_char-lacks, len-cons, len-nil, len-cons-pos,
  has_prefix_unique, has_prefix_refl, has_prefix_shorter, eq-nil_of_len, ne-nil_of_len, Dict,
  lookup, insert, delete, has_key, lookup-insert, lookup-insert_self, lookup-delete, dict_laws, ℤ,
  pos, negsuc, sub_ℕ, ltb_ℤ, is_pos, add_clamped,
}
use xal_tor_ka.Providers.Answer.{Identity, Answer, identity, invalid_credentials, unavailable}

pub record Ldap : Type 0 where
  pub id : String
  pub url : String
  pub bind_dn_template : String
  pub start_tls : Bool
  pub insecure_skip : Bool

-- fmt.Sprintf for one %s, and what the server says: to a connection and an upgrade, which a flag
-- allows to go unverified, and to a bind.
pub record LdapNet : Type 0 where
  pub sprintf : String → String → String
  pub dial : String → Bool → Bool
  pub upgrade : String → Bool → Bool
  pub bind : String → String → String → Bool

-- \ , + " < > ; =
unfoldable pub is_dn_special : ℕ → Bool
is_dn_special c =
    eqb c 92 || eqb c 44 || eqb c 43 || eqb c 34 || eqb c 60 || eqb c 62 || eqb c 59 || eqb c 61

-- escapeDNValue
unfoldable pub escape_dn_value : String → String
escape_dn_value String.[] = ""
escape_dn_value (String.◌∷◌ c s) =
    let rest = char_cons c (escape_dn_value s) in
    if is_dn_special (code c) then str_append "\\" rest else rest

-- the part of Authenticate behind the connection
unfoldable pub bind_user : LdapNet → Ldap → String → String → Answer
bind_user net l username password =
    if net.bind l.url (net.sprintf l.bind_dn_template (escape_dn_value username)) password
    then identity (record { email = username; provider = l.id })
    else invalid_credentials

-- Authenticate
unfoldable pub authenticate_ldap : LdapNet → Ldap → String → String → Answer
authenticate_ldap net l username password =
    if trim_space username == "" || password == ""
    then invalid_credentials
    else if not (net.dial l.url l.insecure_skip)
    then unavailable
    else if l.start_tls && not (net.upgrade l.url l.insecure_skip)
    then unavailable
    else bind_user net l username password
