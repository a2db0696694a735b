-- ===== src/Handlers/Admin/Upstream.antt =====
-- handlers/admin.go and handlers/server.go: the texts of the service forms, upstreams, matches of a
-- path, lists of networks and names.
pub mod Laws
use Prim.Native.String
use Prim.Native.String.{[] as empty, ◌∷◌ as char_cons, ◌++◌ as str_append}
use xal_tor_ka.Base.{
  ℕ, zero, suc, ◌+◌, ◌-◌, ◌*◌, ◌/◌, ◌%◌, ◌^◌, ◌≤◌, ◌<◌, String, Char, code, ◌≡◌, refl, sym, ap, ◌∙◌,
  ◌≢◌, ◌↔◌, ◌⊎◌, inl, inr, Bool, true, false, not, ◌&&◌, ◌||◌, Option, none, some, List, [], ◌∷◌,
  ◌++◌, map, arith, ◌==◌, eq_iff, eq_refl, ltb, leb, eqb, if◌then◌else◌, ltb→lt, lt→ltb, leb→le,
  ltb→le, eqb→eq, eqb_refl, Bool-cases, Option-cases, some_eq, is_some, and→both, both→and,
  or→either, length, take, drop, length-append, length-take, length-drop, take-append-drop, any,
  all, keep, In, All, All-append, All-map, All-at, All-of, In-append_left, In-append_right,
  In-append, any→In, In→any, any-eq-false, all→All, keep-In, In-keep, has_prefix, trim_right,
  trim_char, index_char, has_char, trim_space, ne→false, false→ne, last_index_char,
  has_prefix→append, has_prefix-append, trim_char-lacks, len-cons, len-nil, len-cons-pos,
  has_prefix_unique, has_prefix_refl, has_prefix_shorter, eq-nil_of_len, ne-nil_of_len, Dict,
  lookup, insert, delete, has_key, lookup-insert, lookup-insert_self, lookup-delete, dict_laws, ℤ,
  pos, negsuc, sub_ℕ, ltb_ℤ, is_pos, add_clamped,
}
use xal_tor_ka.Auth.Otp.{digit}
use xal_tor_ka.Config.Validate.{drop_char, host_and_port, is_port, atoi}
use xal_tor_ka.Handlers.Number.{atoi_value}
use xal_tor_ka.Handlers.Net.{NetLib, split_host_port}

-- strings.FieldsFunc: the word at the front, and the fields behind it
unfoldable pub split_word : (ℕ → Bool) → String → String × List String
split_word p String.[] = ("", [])
split_word p (String.◌∷◌ c s) =
    let (w, ws) = split_word p s in
    if p (code c) then ("", if w == "" then ws else w ∷ ws) else (char_cons c w, ws)

unfoldable pub fields_func : (ℕ → Bool) → String → List String
fields_func p s = let (w, ws) = split_word p s in if w == "" then ws else w ∷ ws

-- fmt.Sprintf("%d", n), for n below 10 ^ k; the decimal digits of n
unfoldable pub decimal_digits : ℕ → ℕ → String
decimal_digits zero n = ""
decimal_digits (suc k) n =
    let front = decimal_digits k (n / 10) in
    if ltb n 10 then digit n else str_append front (digit (n % 10))

-- the parts of upstream before and behind "://", the first with it; none where there is none
unfoldable pub split_scheme : String → Option (String × String)
split_scheme String.[] = none
split_scheme (String.◌∷◌ c s) =
    let found : Option (String × String) = elim (split_scheme s) [
      | none ↦ none
      | some (a, b) ↦ some (char_cons c a, b)
    ] in
    if eqb (code c) b':' && has_prefix s "//" then some ("://", drop_char (drop_char s)) else found

-- s[i:] for i the first place of k in s; empty where there is none
unfoldable pub from_char : ℕ → String → String
from_char k String.[] = ""
from_char k (String.◌∷◌ c s) =
    let rest = from_char k s in if eqb (code c) k then char_cons c s else rest

-- the host and the port, empty where hostport does not split
unfoldable pub host_port_of : String → String × String
host_port_of hostport = elim (split_host_port hostport) [
  | some (host, port) ↦ (host, port)
  | none ↦ (hostport, "")
]

-- host, or host:port
unfoldable pub with_port : String → String → String
with_port host port = if not (port == "") then str_append host (str_append ":" port) else host

-- hostInternalize, for the target s.UpstreamLocalhost
unfoldable pub host_internalize : String → String → String
host_internalize target upstream = elim (split_scheme upstream) [
  | none ↦ upstream
  | some (scheme, rest) ↦
      let (host, port) = host_port_of (trim_char b'/' rest) in
      if target == "" || not (host == "localhost") && not (host == "127.0.0.1")
      then upstream
      else str_append scheme (str_append (with_port target port) (from_char b'/' rest))
]

-- the checks of the port
unfoldable pub port_error : String → Option String
port_error port = if is_port (atoi port) then none else some "invalid upstream port"

-- validateUpstream; none is no error
unfoldable pub validate_upstream : String → Option String
validate_upstream upstream = elim (split_host_port (host_and_port upstream)) [
  | none ↦ some "invalid upstream (expected http://host:port)"
  | some (host, port) ↦
      if host == "" then some "invalid upstream (expected http://host:port)" else port_error port
]

-- hostInternalPort; 0 where the upstream does not lead to the host of the containers
unfoldable pub host_internal_port : String → ℤ
host_internal_port upstream = elim (split_host_port (host_and_port upstream)) [
  | none ↦ pos 0
  | some (host, port) ↦ if host == "host.docker.internal" then atoi_value port else pos 0
]

-- splitMatch
unfoldable pub split_match : String → String × Bool
split_match p =
    if has_prefix p "= " then (trim_space (drop_char (drop_char p)), true) else (p, false)

-- joinMatch
unfoldable pub join_match : String → Bool → String
join_match path exact = if exact then str_append "= " (trim_space path) else trim_space path

unfoldable pub is_separator : ℕ → Bool
is_separator c = eqb c b',' || eqb c b' ' || eqb c 10 || eqb c 13 || eqb c 9 || eqb c b';'

module _ (net : NetLib) (is_v4 : net.Ip → Bool) where
  -- a bare address as the network of that address alone
  unfoldable pub as_network : String → String
  as_network f = if has_char b'/' f then f else elim (net.parse_ip f) [
    | none ↦ f
    | some ip ↦ str_append f (if is_v4 ip then "/32" else "/128")
  ]

  -- the loop of normalizeCIDRs; inr is the first token that is no network
  unfoldable pub normalize_fields : List String → List String ⊎ String
  normalize_fields [] = inl []
  normalize_fields (f ∷ fs) =
      let rest : List String ⊎ String = elim (normalize_fields fs) [
        | inl cs ↦ inl (as_network f ∷ cs)
        | inr wrong ↦ inr wrong
      ] in
      elim (net.parse_cidr (as_network f)) [ none ↦ inr (as_network f) | some n ↦ rest ]

  -- normalizeCIDRs
  unfoldable pub normalize_cidrs : String → List String ⊎ String
  normalize_cidrs raw = normalize_fields (fields_func is_separator raw)

unfoldable pub is_name_char : ℕ → Bool
is_name_char c = leb b'a' c && leb c b'z' || leb b'0' c && leb c b'9' || eqb c b'-'

-- the loop of sanitizeName
unfoldable pub dash_others : String → String
dash_others String.[] = ""
dash_others (String.◌∷◌ c s) =
    if is_name_char (code c) then char_cons c (dash_others s) else str_append "-" (dash_others s)

-- strings.TrimLeft(s, c) for a cutset of one character
unfoldable pub trim_left : ℕ → String → String
trim_left k String.[] = ""
trim_left k (String.◌∷◌ c s) =
    let rest = trim_left k s in if eqb (code c) k then rest else char_cons c s

-- strings.TrimPrefix(n, "/")
unfoldable pub without_slash : String → String
without_slash n = if has_prefix n "/" then drop_char n else n

-- sanitizeName, with strings.ToLower an argument
unfoldable pub sanitize_name : (String → String) → String → String
sanitize_name lower n = trim_right b'-' (trim_left b'-' (dash_others (lower (without_slash n))))
