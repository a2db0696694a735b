-- ===== src/Handlers/Next.antt =====
-- handlers/server.go, sanitizeNext: where a login may lead. net/url is a parameter.
pub mod Laws
use Prim.Native.String.{◌++◌ as str_append}
use xal_tor_ka.Base.{
  ℕ, zero, suc, ◌+◌, ◌-◌, ◌*◌, ◌/◌, ◌%◌, ◌^◌, ◌≤◌, ◌<◌, String, Char, code, ◌≡◌, refl, sym, ap, ◌∙◌,
  ◌≢◌, ◌↔◌, ◌⊎◌, inl, inr, Bool, true, false, not, ◌&&◌, ◌||◌, Option, none, some, List, [], ◌∷◌,
  ◌++◌, map, arith, ◌==◌, eq_iff, eq_refl, ltb, leb, eqb, if◌then◌else◌, ltb→lt, lt→ltb, leb→le,
  ltb→le, eqb→eq, eqb_refl, Bool-cases, Option-cases, some_eq, is_some, and→both, both→and,
  or→either, length, take, drop, length-append, length-take, length-drop, take-append-drop, any,
  all, keep, In, All, All-append, All-map, All-at, All-of, In-append_left, In-append_right,
  In-append, any→In, In→any, any-eq-false, all→All, keep-In, In-keep, has_prefix, trim_right,
  trim_char, index_char, has_char, trim_space, ne→false, false→ne, last_index_char,
  has_prefix→append, has_prefix-append, trim_char-lacks, len-cons, len-nil, len-cons-pos,
  has_prefix_unique, has_prefix_refl, has_prefix_shorter, eq-nil_of_len, ne-nil_of_len, Dict,
  lookup, insert, delete, has_key, lookup-insert, lookup-insert_self, lookup-delete, dict_laws, ℤ,
  pos, negsuc, sub_ℕ, ltb_ℤ, is_pos, add_clamped,
}
use xal_tor_ka.Models.Services.{
  ProviderCfg, Route, Health, WafCfg, HostingRef, NginxOpts, Backend, Link, Monitor, Services,
}
use xal_tor_ka.Matrix.{Resolver}
use xal_tor_ka.Handlers.Net.{strip_port}

-- The scheme and the host of a URL, and its path, none where it does not parse; and
-- url.QueryEscape.
pub record UrlLib : Type 0 where
  pub parse_url : String → Option (String × String)
  pub url_path : String → Option String
  pub query_escape : String → String

abbrev pub listing : String
listing = "/listing"

unfoldable pub is_local_path : String → Bool
is_local_path n = has_prefix n "/" && not (has_prefix n "//")

unfoldable pub is_known_host : Resolver → String → Bool
is_known_host r host = any (λ be. be.host == strip_port host) r.backends

unfoldable pub leads_to_backend : UrlLib → Resolver → String → Bool
leads_to_backend url r n = elim (url.parse_url n) [
  | none ↦ false
  | some (scheme, host) ↦ (scheme == "http" || scheme == "https") && is_known_host r host
]

-- sanitizeNext
unfoldable pub sanitize_next : UrlLib → Resolver → String → String
sanitize_next url r n =
    if n == ""
    then listing
    else if is_local_path n
    then n
    else if leads_to_backend url r n
    then n
    else listing
