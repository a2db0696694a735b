-- ===== src/Handlers/Net.antt =====
-- handlers/server.go: the address of the client, and the host and port of a text. Parsing an
-- address or a network, and whether a network holds an address, are Go's package net: a parameter.
pub mod Laws
use Prim.Native.String
use Prim.Native.String.{[] as empty, ◌∷◌ as char_cons}
use xal_tor_ka.Base.{
  ℕ, zero, suc, ◌+◌, ◌-◌, ◌*◌, ◌/◌, ◌%◌, ◌^◌, ◌≤◌, ◌<◌, String, Char, code, ◌≡◌, refl, sym, ap, ◌∙◌,
  ◌≢◌, ◌↔◌, ◌⊎◌, inl, inr, Bool, true, false, not, ◌&&◌, ◌||◌, Option, none, some, List, [], ◌∷◌,
  ◌++◌, map, arith, ◌==◌, eq_iff, eq_refl, ltb, leb, eqb, if◌then◌else◌, ltb→lt, lt→ltb, leb→le,
  ltb→le, eqb→eq, eqb_refl, Bool-cases, Option-cases, some_eq, is_some, and→both, both→and,
  or→either, length, take, drop, length-append, length-take, length-drop, take-append-drop, any,
  all, keep, In, All, All-append, All-map, All-at, All-of, In-append_left, In-append_right,
  In-append, any→In, In→any, any-eq-false, all→All, keep-In, In-keep, has_prefix, trim_right,
  trim_char, index_char, has_char, trim_space, last_index_char, has_prefix→append,
  has_prefix-append, trim_char-lacks, len-cons, len-nil, len-cons-pos, has_prefix_unique,
  has_prefix_refl, has_prefix_shorter, eq-nil_of_len, ne-nil_of_len, Dict, lookup, insert, delete,
  has_key, lookup-insert, lookup-insert_self, lookup-delete, dict_laws, ℤ, pos, negsuc, sub_ℕ,
  ltb_ℤ, is_pos, add_clamped,
}

pub record NetLib : Type 1 where
  pub Ip : Type 0
  pub Cidr : Type 0
  pub parse_ip : String → Option Ip
  pub parse_cidr : String → Option Cidr
  pub contains : Cidr → Ip → Bool

-- net.SplitHostPort behind an opening bracket: the first ] stands right before the last colon
unfoldable pub split_bracketed : String → Option (String × String)
split_bracketed inner = elim (index_char b']' inner) [
  | none ↦ none
  | some (host, after) ↦ elim (index_char b':' after) [
    | none ↦ none
    | some (between, port) ↦
        if between == ""
          && not (has_char b':' port)
          && not (has_char b'[' inner)
          && not (has_char b']' after)
        then some (host, port)
        else none
  ]
]

unfoldable pub split_plain : String → Option (String × String)
split_plain hostport = elim (last_index_char b':' hostport) [
  | none ↦ none
  | some (host, port) ↦
      if has_char b':' host || has_char b'[' hostport || has_char b']' hostport
      then none
      else some (host, port)
]

-- net.SplitHostPort; none is an error
unfoldable pub split_host_port : String → Option (String × String)
split_host_port String.[] = none
split_host_port (String.◌∷◌ c s) =
    if eqb (code c) b'[' then split_bracketed s else split_plain (String.◌∷◌ c s)

unfoldable pub first_non_empty : String → String → String
first_non_empty a b = if not (a == "") then a else b

unfoldable pub strip_port : String → String
strip_port host = elim (split_host_port host) [ some (h, port) ↦ h | none ↦ host ]

-- The parts of an HTTP request that the handlers read. A header that is not there is "". The form
-- is none where it does not parse; a field that is not there is "". A field that may be there more
-- than once stands in `lists`. Where net/http gives up on a form half way
-- and the handler goes on, the fields read so far are taken as not there.
pub record Request : Type 0 where
  pub remote_addr : String
  pub host : String
  pub path : String
  pub x_original_host : String
  pub x_original_uri : String
  pub x_real_ip : String
  pub x_forwarded_for : String
  pub cookies : Dict String
  pub query : Dict String
  pub form : Option (Dict String)
  pub lists : Dict (List String)
  pub referer : String

unfoldable pub field : String → Dict String → String
field k m = elim (lookup k m) [ none ↦ "" | some v ↦ v ]

-- r.PostForm[k]
unfoldable pub form_list : Request → String → List String
form_list r k = elim (lookup k r.lists) [ none ↦ [] | some vs ↦ vs ]

-- r.PostFormValue
unfoldable pub form_value : Request → String → String
form_value r k = elim r.form [ none ↦ "" | some m ↦ field k m ]

module _ (net : NetLib) where
  open net use {Ip, parse_ip, parse_cidr, contains}

  -- one round of the loop of ipInCIDRs
  unfoldable pub cidr_holds : Ip → String → Bool
  cidr_holds ip cidr = elim (parse_cidr cidr) [ none ↦ false | some n ↦ contains n ip ]

  unfoldable pub ip_in_cidrs : Option Ip → List String → Bool
  ip_in_cidrs none cidrs = false
  ip_in_cidrs (some ip) cidrs = any (cidr_holds ip) cidrs

  -- the address of the direct peer
  unfoldable pub peer_ip : Request → Option Ip
  peer_ip r = parse_ip (strip_port r.remote_addr)

  -- X-Forwarded-For, leftmost; else the peer
  unfoldable pub forwarded_ip : Request → Option Ip
  forwarded_ip r =
      if not (r.x_forwarded_for == "")
      then elim (parse_ip (trim_space (trim_char b',' r.x_forwarded_for))) [
        | some cand ↦ some cand
        | none ↦ peer_ip r
      ]
      else peer_ip r

  unfoldable pub real_ip : Request → Option Ip
  real_ip r =
      let xr = trim_space r.x_real_ip in
      if not (xr == "")
      then elim (parse_ip xr) [ some cand ↦ some cand | none ↦ forwarded_ip r ]
      else forwarded_ip r

  unfoldable pub client_ip : Request → List String → Option Ip
  client_ip r trusted = if not (ip_in_cidrs (peer_ip r) trusted) then peer_ip r else real_ip r
