-- ===== src/Handlers/Services.antt =====
-- handlers/server.go, Reload and HealthTargets; handlers/providers.go, mergeProviders and BuildLDAP.
-- What LoadServices reads is an argument, none where it fails, and so is the success of the proxy.
-- The clients of OIDC providers are not part of the state.
pub mod Laws
use xal_tor_ka.Base.{
  ℕ, zero, suc, ◌+◌, ◌-◌, ◌*◌, ◌/◌, ◌%◌, ◌^◌, ◌≤◌, ◌<◌, String, Char, code, ◌≡◌, refl, sym, ap, ◌∙◌,
  ◌≢◌, ◌↔◌, ◌⊎◌, inl, inr, Bool, true, false, not, ◌&&◌, ◌||◌, Option, none, some, List, [], ◌∷◌,
  ◌++◌, map, arith, ◌==◌, eq_iff, eq_refl, ltb, leb, eqb, if◌then◌else◌, ltb→lt, lt→ltb, leb→le,
  ltb→le, eqb→eq, eqb_refl, Bool-cases, Option-cases, some_eq, is_some, and→both, both→and,
  or→either, length, take, drop, length-append, length-take, length-drop, take-append-drop, any,
  all, keep, In, All, All-append, All-map, All-at, All-of, In-append_left, In-append_right,
  In-append, any→In, In→any, any-eq-false, all→All, keep-In, In-keep, has_prefix, trim_right,
  trim_char, index_char, has_char, trim_space, ne→false, false→ne, last_index_char,
  has_prefix→append, has_prefix-append, trim_char-lacks, len-cons, len-nil, len-cons-pos,
  has_prefix_unique, has_prefix_refl, has_prefix_shorter, eq-nil_of_len, ne-nil_of_len, Dict,
  lookup, insert, delete, has_key, lookup-insert, lookup-insert_self, lookup-delete, dict_laws, ℤ,
  pos, negsuc, sub_ℕ, ltb_ℤ, is_pos, add_clamped,
}
use xal_tor_ka.Models.Services.{
  ProviderCfg, Route, Health, WafCfg, HostingRef, NginxOpts, Backend, Link, Monitor, Services,
}
use xal_tor_ka.Models.Settings.{
  Config, Secrets, ServerCfg, TlsCfg, AcmeCfg, SessionCfg, AdminCfg, OneTimeCodeCfg, TelegramCfg,
  EmailCfg, AlertingCfg, MonitoringCfg, RemoteControlCfg, TelegramInCfg, EmailInCfg, OsUpdatesCfg,
  ProviderSecret, TelegramSecret, SmtpSecret, AcmeSecret, ImapSecret,
}
use xal_tor_ka.Matrix.{Resolver, set_backends}
use xal_tor_ka.Providers.Ldap.{Ldap}
use xal_tor_ka.Handlers.Server.{Server}

-- the inner loop: the list with the first entry of the id replaced, none where there is no such one
unfoldable pub replace_provider : ProviderCfg → List ProviderCfg → Option (List ProviderCfg)
replace_provider rp [] = none
replace_provider rp (p ∷ ps) =
    let found : Option (List ProviderCfg) = elim (replace_provider rp ps) [
      | none ↦ none
      | some qs ↦ some (p ∷ qs)
    ] in
    if p.id == rp.id then some (rp ∷ ps) else found

unfoldable pub merge_provider : List ProviderCfg → ProviderCfg → List ProviderCfg
merge_provider out rp = elim (replace_provider rp out) [ some qs ↦ qs | none ↦ out ++ (rp ∷ []) ]

-- mergeProviders
unfoldable pub merge_providers : List ProviderCfg → List ProviderCfg → List ProviderCfg
merge_providers out [] = out
merge_providers out (rp ∷ rps) = merge_providers (merge_provider out rp) rps

-- BuildLDAP
unfoldable pub is_usable_ldap : ProviderCfg → Bool
is_usable_ldap p =
    p.type == "ldap" && p.enabled && not (p.ldap_url == "") && not (p.ldap_bind_dn_template == "")

abbrev pub ldap_of : ProviderCfg → Ldap
ldap_of p = record {
  id = p.id;
  url = p.ldap_url;
  bind_dn_template = p.ldap_bind_dn_template;
  start_tls = p.ldap_start_tls;
  insecure_skip = p.ldap_insecure_skip_verify;
}

unfoldable pub build_ldap : List ProviderCfg → List Ldap
build_ldap ps = map ldap_of (keep is_usable_ldap ps)

-- only enabled backends enter the resolver
unfoldable pub merged_backends : List Backend → Services → List Backend
merged_backends base svc = base ++ keep (λ b. not b.disabled) svc.backends

-- the new state of Reload
unfoldable pub reloaded : Services → Server → Server
reloaded svc s = record s {
  resolver = set_backends s.resolver (merged_backends s.base_backends svc);
  links = svc.links;
  admin_ips = svc.admin_ip_whitelist;
  monitors = svc.monitors;
  providers = some (merge_providers s.base_providers svc.providers);
}

-- Reload; true is no error
unfoldable pub reload : Option Services → Bool → Server → Bool × Server
reload none applied s = (false, s)
reload (some svc) applied s = (applied, reloaded svc s)

-- if iv == 0 { iv = 30 }
unfoldable pub or_default : ℕ → ℤ → ℤ
or_default d (pos zero) = pos d
or_default d n = n

abbrev pub no_options : NginxOpts
no_options = record {
  proxy_timeout = pos 0;
  max_body_mb = pos 0;
  web_socket = false;
  no_buffering = false;
  backend_self_signed = false;
  custom_server = "";
  custom_location = "";
}

-- the synthetic backend of a monitor
unfoldable pub monitor_target : Monitor → Backend
monitor_target m = record {
  id = m.id;
  name = "";
  description = "";
  host = if m.name == "" then m.id else m.name;
  url = "";
  www = false;
  disabled = false;
  unlisted = false;
  image = "";
  ip_allow = [];
  routes = [];
  health = record {
    url = m.url;
    interval_seconds = or_default 30 m.interval_seconds;
    timeout_seconds = or_default 5 m.timeout_seconds;
  };
  nginx = no_options;
  hosting = none;
  waf = none;
}

-- HealthTargets
unfoldable pub health_targets : Server → List Backend
health_targets s = s.resolver.backends ++ map monitor_target s.monitors
