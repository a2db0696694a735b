-- ===== src/Handlers/Validate.antt =====
-- handlers/server.go, handleValidate: the answer to NGINX's auth_request.
pub mod Laws
pub mod Header
pub mod Proxied
use Prim.Native.String.{◌++◌ as text_append}
use xal_tor_ka.Base.{
  ℕ, zero, suc, ◌+◌, ◌-◌, ◌*◌, ◌/◌, ◌%◌, ◌^◌, ◌≤◌, ◌<◌, String, Char, code, ◌≡◌, refl, sym, ap, ◌∙◌,
  ◌≢◌, ◌↔◌, ◌⊎◌, inl, inr, Bool, true, false, not, ◌&&◌, ◌||◌, Option, none, some, List, [], ◌∷◌,
  ◌++◌, map, arith, ◌==◌, eq_iff, eq_refl, ltb, leb, eqb, if◌then◌else◌, ltb→lt, lt→ltb, leb→le,
  ltb→le, eqb→eq, eqb_refl, Bool-cases, Option-cases, some_eq, is_some, and→both, both→and,
  or→either, length, take, drop, length-append, length-take, length-drop, take-append-drop, any,
  all, keep, In, All, All-append, All-map, All-at, All-of, In-append_left, In-append_right,
  In-append, any→In, In→any, any-eq-false, all→All, keep-In, In-keep, has_prefix, trim_right,
  trim_char, index_char, has_char, trim_space, ne→false, false→ne, last_index_char,
  has_prefix→append, has_prefix-append, trim_char-lacks, len-cons, len-nil, len-cons-pos,
  has_prefix_unique, has_prefix_refl, has_prefix_shorter, eq-nil_of_len, ne-nil_of_len, Dict,
  lookup, insert, delete, has_key, lookup-insert, lookup-insert_self, lookup-delete, dict_laws, ℤ,
  pos, negsuc, sub_ℕ, ltb_ℤ, is_pos, add_clamped,
}
use xal_tor_ka.Models.Services.{
  ProviderCfg, Route, Health, WafCfg, HostingRef, NginxOpts, Backend, Link, Monitor, Services,
}
use xal_tor_ka.Models.Settings.{
  Config, Secrets, ServerCfg, TlsCfg, AcmeCfg, SessionCfg, AdminCfg, OneTimeCodeCfg, TelegramCfg,
  EmailCfg, AlertingCfg, MonitoringCfg, RemoteControlCfg, TelegramInCfg, EmailInCfg, OsUpdatesCfg,
  ProviderSecret, TelegramSecret, SmtpSecret, AcmeSecret, ImapSecret,
}
use xal_tor_ka.Models.Identity.{User, Users, Session, SetupToken, SetupState}
use xal_tor_ka.Models.Grants.{
  rule_public, rule_authenticated, rule_authorized, rule_whitelist_legacy, is_at_or_below,
  is_root_path, grant_id, nearest_step, nearest, effective_grant_id, canonical_rule,
  canonical_route, canonical_backend, canonicalize_rules,
}
use xal_tor_ka.Auth.Directory.{get_user}
use xal_tor_ka.Matrix.{Resolver, Resolved, hit, no_route, no_host, resolve, authorized}
use xal_tor_ka.Handlers.Net.{NetLib, Request, client_ip, ip_in_cidrs, first_non_empty, strip_port}
use xal_tor_ka.Handlers.Server.{Server, Moment, session, audit_fail}

-- The status, and the header X-Auth-User where it is set.
pub record Verdict : Type 0 where
  pub status : ℕ
  pub auth_user : Option String

abbrev pub status_ok : ℕ
status_ok = 200

abbrev pub status_unauthorized : ℕ
status_unauthorized = 401

abbrev pub status_forbidden : ℕ
status_forbidden = 403

abbrev pub plain : ℕ → Verdict
plain status = record { status = status; auth_user = none }

abbrev pub welcome : String → Verdict
welcome email = record { status = status_ok; auth_user = some email }

unfoldable pub request_host : Request → String
request_host r = strip_port (first_non_empty r.x_original_host r.host)

unfoldable pub request_path : Request → String
request_path r = trim_char b'?' (first_non_empty r.x_original_uri "/")

-- case "authenticated"
unfoldable pub answer_authenticated : Option Session → Verdict
answer_authenticated none = plain status_unauthorized
answer_authenticated (some sess) =
    if sess.two_fa_done then welcome sess.email else plain status_unauthorized

-- found && (u.Admin || s.Resolver.Authorized(u, models.EffectiveGrantID(be, route)))
unfoldable pub may_use : Option User → Backend → Route → Bool
may_use none be route = false
may_use (some u) be route = u.admin || authorized u (effective_grant_id be route)

-- case models.RuleAuthorized
unfoldable pub answer_authorized : Server → Backend → Route → Option Session → Verdict
answer_authorized s be route none = plain status_unauthorized
answer_authorized s be route (some sess) =
    if not sess.two_fa_done
    then plain status_unauthorized
    else if may_use (get_user s.users sess.email) be route
    then welcome sess.email
    else plain status_forbidden

-- the switch on the rule
unfoldable pub answer_rule : Moment → Request → Backend → Route → Server → Verdict × Server
answer_rule t r be route s =
    let rule = canonical_rule route.rule in
    let (sess, s') = session t r s in
    if rule == rule_public
    then (plain status_ok, s)
    else if rule == rule_authenticated
    then (answer_authenticated sess, s')
    else if rule == rule_authorized
    then (answer_authorized s be route sess, s')
    else (plain status_forbidden, s)

abbrev pub is_nil {ℓ} : {A : Type ℓ} → List A → Bool
is_nil [] = true
is_nil (x ∷ xs) = false

module _ (net : NetLib) where
  -- len(be.IPAllow) > 0 and the client's address is unknown or not on the list
  unfoldable pub ip_denied : Request → Backend → Server → Bool
  ip_denied r be s =
      not (is_nil be.ip_allow)
      && not (ip_in_cidrs net (client_ip net r s.cfg.server.trusted_proxies) be.ip_allow)

  unfoldable pub answer_resolved : Moment → Request → Resolved → Server → Verdict × Server
  answer_resolved t r (no_route h) s = (plain status_forbidden, s)
  answer_resolved t r no_host s = (plain status_forbidden, s)
  answer_resolved t r (hit be route) s =
      if ip_denied r be s
      then (plain status_forbidden, audit_fail "ip_denied" (text_append "host=" (request_host r)) s)
      else answer_rule t r be route s

  unfoldable pub handle_validate : Moment → Request → Server → Verdict × Server
  handle_validate t r s =
      if not s.cfg.auth_mode
      then (plain status_ok, s)
      else answer_resolved t r (resolve s.resolver (request_host r) (request_path r)) s
