-- ===== src/Matrix.antt =====
-- matrix/matrix.go: which backend and route a request belongs to, and the grants of a user. The
-- lock makes each method one step; Set and Backends copy the slice, so a resolver is its list.
pub mod Laws
use Prim.Native.String.{len, ◌++◌ as str_append}
use xal_tor_ka.Base.{
  ℕ, zero, suc, ◌+◌, ◌-◌, ◌*◌, ◌/◌, ◌%◌, ◌^◌, ◌≤◌, ◌<◌, String, Char, code, ◌≡◌, refl, sym, ap, ◌∙◌,
  ◌≢◌, ◌↔◌, ◌⊎◌, inl, inr, Bool, true, false, not, ◌&&◌, ◌||◌, Option, none, some, List, [], ◌∷◌,
  ◌++◌, map, arith, ◌==◌, eq_iff, eq_refl, ltb, leb, eqb, if◌then◌else◌, ltb→lt, lt→ltb, leb→le,
  ltb→le, eqb→eq, eqb_refl, Bool-cases, Option-cases, is_some, and→both, both→and, or→either,
  length, take, drop, length-append, length-take, length-drop, take-append-drop, any, all, keep, In,
  All, All-append, All-map, All-at, All-of, In-append_left, In-append_right, In-append, any→In,
  In→any, any-eq-false, all→All, keep-In, In-keep, has_prefix, trim_right, trim_char, index_char,
  has_char, has_prefix→append, has_prefix-append, trim_char-lacks, len-cons, len-nil, len-cons-pos,
  has_prefix_unique, has_prefix_refl, has_prefix_shorter, eq-nil_of_len, ne-nil_of_len, Dict,
  lookup, insert, delete, has_key, lookup-insert, lookup-insert_self, lookup-delete, dict_laws, ℤ,
  pos, negsuc, sub_ℕ, ltb_ℤ, is_pos, add_clamped,
}
use xal_tor_ka.Models.Services.{
  ProviderCfg, Route, Health, WafCfg, HostingRef, NginxOpts, Backend, Link, Monitor, Services,
}
use xal_tor_ka.Models.Settings.{
  Config, Secrets, ServerCfg, TlsCfg, AcmeCfg, SessionCfg, AdminCfg, OneTimeCodeCfg, TelegramCfg,
  EmailCfg, AlertingCfg, MonitoringCfg, RemoteControlCfg, TelegramInCfg, EmailInCfg, OsUpdatesCfg,
  ProviderSecret, TelegramSecret, SmtpSecret, AcmeSecret, ImapSecret,
}
use xal_tor_ka.Models.Identity.{User, Users, Session, SetupToken, SetupState}
use xal_tor_ka.Models.Grants.{
  rule_public, rule_authenticated, rule_authorized, rule_whitelist_legacy, is_at_or_below,
  is_root_path, grant_id, nearest_step, nearest, effective_grant_id, canonical_rule,
  canonical_route, canonical_backend, canonicalize_rules,
}

pub record Resolver : Type 0 where
  pub backends : List Backend

-- Set
unfoldable pub set_backends : Resolver → List Backend → Resolver
set_backends r bs = record r { backends = bs }

-- NewResolver
unfoldable pub new_resolver : Config → Resolver
new_resolver c = set_backends (record { backends = [] }) c.backends

unfoldable pub path_matches : String → String → Bool
path_matches req_path route_path =
    if is_root_path route_path
    then true
    else let rp = trim_right b'/' route_path in
      req_path == rp || has_prefix req_path (str_append rp "/")

-- `best`, `bestBackend` and `bestRoute` of the loop; none is best = -1
abbrev pub Best : Type 0
Best = Option (Backend × Route)

unfoldable pub is_longer : Route → Best → Bool
is_longer rt none = true
is_longer rt (some (be, best)) = ltb (len best.path) (len rt.path)

unfoldable pub route_step : String → Backend → Best → Route → Best
route_step path be best rt =
    if path_matches path rt.path && is_longer rt best then some (be, rt) else best

unfoldable pub route_loop : String → Backend → Best → List Route → Best
route_loop path be best [] = best
route_loop path be best (rt ∷ rts) = route_loop path be (route_step path be best rt) rts

unfoldable pub backend_step : String → String → Best → Backend → Best
backend_step host path best be = if be.host == host then route_loop path be best be.routes else best

unfoldable pub backend_loop : String → String → Best → List Backend → Best
backend_loop host path best [] = best
backend_loop host path best (be ∷ bes) = backend_loop host path (backend_step host path best be) bes

-- The three ways in which Resolve returns: ok, the host known but no route, and the host unknown.
pub data Resolved : Type 0 where
  hit : Backend → Route → Resolved
  no_route : String → Resolved
  no_host : Resolved

unfoldable pub miss : String → List Backend → Resolved
miss host bs = if any (λ be. be.host == host) bs then no_route host else no_host

unfoldable pub outcome : String → List Backend → Best → Resolved
outcome host bs none = miss host bs
outcome host bs (some (be, rt)) = hit be rt

unfoldable pub resolve : Resolver → String → String → Resolved
resolve r host path = outcome host r.backends (backend_loop host path none r.backends)

-- Authorized
unfoldable pub authorized : User → String → Bool
authorized u backend_id = any (λ b. b == backend_id) u.backends
