-- ===== src/Config/Validate.antt =====
-- config/validate.go: the checks that a configuration passes before it is used. A map of ids that is
-- only asked for membership is the list of its keys. net.ParseCIDR is part of the parameter NetLib.
pub mod Rules
pub mod Laws
pub mod Accepted
use Prim.Native.String
use Prim.Native.String.{[] as empty, ◌∷◌ as char_cons, ◌++◌ as str_append}
use xal_tor_ka.Base.{
  ℕ, zero, suc, ◌+◌, ◌-◌, ◌*◌, ◌/◌, ◌%◌, ◌^◌, ◌≤◌, ◌<◌, String, Char, code, ◌≡◌, refl, sym, ap, ◌∙◌,
  ◌≢◌, ◌↔◌, ◌⊎◌, inl, inr, Bool, true, false, not, ◌&&◌, ◌||◌, Option, none, some, List, [], ◌∷◌,
  ◌++◌, map, arith, ◌==◌, eq_iff, eq_refl, ltb, leb, eqb, if◌then◌else◌, ltb→lt, lt→ltb, leb→le,
  ltb→le, eqb→eq, eqb_refl, Bool-cases, Option-cases, some_eq, is_some, and→both, both→and,
  or→either, length, take, drop, length-append, length-take, length-drop, take-append-drop, any,
  all, keep, In, All, All-append, All-map, All-at, All-of, In-append_left, In-append_right,
  In-append, any→In, In→any, any-eq-false, all→All, keep-In, In-keep, has_prefix, trim_right,
  trim_char, index_char, has_char, trim_space, ne→false, false→ne, last_index_char,
  has_prefix→append, has_prefix-append, trim_char-lacks, len-cons, len-nil, len-cons-pos,
  has_prefix_unique, has_prefix_refl, has_prefix_shorter, eq-nil_of_len, ne-nil_of_len, Dict,
  lookup, insert, delete, has_key, lookup-insert, lookup-insert_self, lookup-delete, dict_laws, ℤ,
  pos, negsuc, sub_ℕ, ltb_ℤ, is_pos, add_clamped,
}
use xal_tor_ka.Models.Services.{
  ProviderCfg, Route, Health, WafCfg, HostingRef, NginxOpts, Backend, Link, Monitor, Services,
}
use xal_tor_ka.Models.Settings.{
  Config, Secrets, ServerCfg, TlsCfg, AcmeCfg, SessionCfg, AdminCfg, OneTimeCodeCfg, TelegramCfg,
  EmailCfg, AlertingCfg, MonitoringCfg, RemoteControlCfg, TelegramInCfg, EmailInCfg, OsUpdatesCfg,
  ProviderSecret, TelegramSecret, SmtpSecret, AcmeSecret, ImapSecret,
}
use xal_tor_ka.Models.Identity.{User, Users, Session, SetupToken, SetupState}
use xal_tor_ka.Handlers.Net.{NetLib, split_host_port}

pub record Bundle : Type 0 where
  pub config : Config
  pub secrets : Secrets
  pub users : Users
  pub services : Services

-- One constructor for each message, with the values it prints.
pub data Fault : Type 0 where
  listen_required : Fault
  tls_mode_invalid : String → Fault
  acme_needs_pdns : Fault
  store_invalid : String → Fault
  cidr_invalid : String → Fault
  provider_id_required : ℕ → Fault
  provider_duplicate : String → Fault
  provider_type_invalid : ℕ → String → Fault
  issuer_required : ℕ → String → Fault
  client_id_required : ℕ → String → Fault
  no_provider_enabled : Fault
  id_required : String → ℕ → Fault
  id_duplicate : String → Fault
  host_required : String → ℕ → Fault
  rule_invalid : String → String → ℕ → String → Fault
  upstream_invalid : String → String → ℕ → String → Fault
  ip_allow_invalid : String → String → ℕ → String → Fault
  link_url_required : String → Fault
  admin_cidr_invalid : ℕ → String → Fault
  monitor_id_required : ℕ → Fault
  monitor_url_required : String → Fault
  user_email_required : ℕ → Fault
  user_provider_unknown : String → String → Fault
  user_needs_password : String → Fault
  user_service_unknown : String → String → Fault

pub data Checked (A : Type 0) : Type 0 where
  bad : Fault → Checked A
  good : A → Checked A

infixl 5 ◌>>=◌
abbrev pub ◌>>=◌ : {A B : Type 0} → Checked A → (A → Checked B) → Checked B
bad f >>= k = bad f
good a >>= k = k a

infixl 5 ◌>>◌
abbrev pub ◌>>◌ : {B : Type 0} → Checked Unit → Checked B → Checked B
bad f >> k = bad f
good u >> k = k

-- return an error unless the condition holds
unfoldable pub need : Bool → Fault → Checked Unit
need true f = good tt
need false f = bad f

abbrev pub valid_rules : List String
valid_rules = "public" ∷ "authenticated" ∷ "authorized" ∷ "whitelist" ∷ []

abbrev pub valid_tls_modes : List String
valid_tls_modes = "external" ∷ "acme" ∷ "selfsigned" ∷ []

abbrev pub valid_stores : List String
valid_stores = "sqlite" ∷ "memory" ∷ "file" ∷ []

abbrev pub is_one_of : List String → String → Bool
is_one_of names s = any (λ n. n == s) names

-- s[1:] for a one-byte first character
unfoldable pub drop_char : String → String
drop_char String.[] = ""
drop_char (String.◌∷◌ c s) = s

-- strings.Index(s, "://") and s[i+3:]; none where there is no "://"
unfoldable pub after_scheme : String → Option String
after_scheme String.[] = none
after_scheme (String.◌∷◌ c s) =
    let rest = after_scheme s in
    if eqb (code c) b':' && has_prefix s "//" then some (drop_char (drop_char s)) else rest

unfoldable pub host_and_port : String → String
host_and_port upstream = elim (after_scheme upstream) [
  | none ↦ trim_char b'/' upstream
  | some s ↦ trim_char b'/' s
]

-- the value of a text of decimal digits, none where another character stands in it
unfoldable pub digits_value : ℕ → String → Option ℕ
digits_value acc String.[] = some acc
digits_value acc (String.◌∷◌ c s) =
    let rest = digits_value (acc * 10 + (code c - b'0')) s in
    if leb b'0' (code c) && leb (code c) b'9' then rest else none

unfoldable pub unsigned : String → Option ℕ
unsigned s = if s == "" then none else digits_value 0 s

-- strconv.Atoi; none is a text that is not a number or one out of the range of int64
unfoldable pub atoi : String → Option ℤ
atoi String.[] = none
atoi (String.◌∷◌ c s) =
    if eqb (code c) b'-'
    then elim (unsigned s) [
      | none ↦ none
      | some zero ↦ some (pos 0)
      | some (suc n) ↦ if ltb n (2 ^ 63) then some (negsuc n) else none
    ]
    else elim (unsigned (if eqb (code c) b'+' then s else char_cons c s)) [
      | none ↦ none
      | some n ↦ if ltb n (2 ^ 63) then some (pos n) else none
    ]

-- n >= 1 && n <= 65535
unfoldable pub is_port : Option ℤ → Bool
is_port (some (pos n)) = leb 1 n && leb n 65535
is_port _ = false

unfoldable pub is_host_and_port : Option (String × String) → Bool
is_host_and_port none = false
is_host_and_port (some (host, port)) = not (host == "") && is_port (atoi port)

-- validateUpstreamPort; true is no error
unfoldable pub validate_upstream_port : String → Bool
validate_upstream_port upstream = is_host_and_port (split_host_port (host_and_port upstream))

unfoldable pub is_known : List String → String → Bool
is_known ids id = any (λ i. i == id) ids

-- for i, p := range c.Providers, with the map providerIDs
unfoldable pub check_provider : ℕ → ProviderCfg → List String → Checked (List String)
check_provider i p ids = do
  need (not (p.id == "")) (provider_id_required i)
  need (not (is_known ids p.id)) (provider_duplicate p.id)
  need (p.type == "oidc" || p.type == "local") (provider_type_invalid i p.type)
  need (not (p.enabled && p.type == "oidc" && trim_space p.issuer == "")) (issuer_required i p.id)
  need (not (p.enabled && p.type == "oidc" && trim_space p.client_id == ""))
      (client_id_required i p.id)
  good (p.id ∷ ids)

unfoldable pub check_providers : ℕ → List ProviderCfg → List String → Checked (List String)
check_providers i [] ids = good ids
check_providers i (p ∷ ps) ids = check_provider i p ids >>= check_providers (suc i) ps

-- the counter `enabled` behind the loop
unfoldable pub enabled_count : List ProviderCfg → ℕ
enabled_count ps = length (keep (λ p. p.enabled) ps)

unfoldable pub check_routes : String → String → ℕ → List Route → Checked Unit
check_routes scope id j [] = good tt
check_routes scope id j (r ∷ rs) = do
  need (is_one_of valid_rules r.rule) (rule_invalid scope id j r.rule)
  need (validate_upstream_port r.upstream) (upstream_invalid scope id j r.upstream)
  check_routes scope id (suc j) rs

module _ (net : NetLib) where
  unfoldable pub is_cidr : String → Bool
  is_cidr cidr = is_some (net.parse_cidr cidr)

  unfoldable pub check_cidrs : (ℕ → String → Fault) → ℕ → List String → Checked Unit
  check_cidrs fault i [] = good tt
  check_cidrs fault i (c ∷ cs) = do need (is_cidr c) (fault i c); check_cidrs fault (suc i) cs

  -- checkBackend
  unfoldable pub check_backend : String → ℕ → Backend → List String → Checked (List String)
  check_backend scope i be ids = do
    need (not (be.id == "")) (id_required scope i)
    need (not (is_known ids be.id)) (id_duplicate be.id)
    need (not (be.host == "")) (host_required scope i)
    check_routes scope be.id 0 be.routes
    check_cidrs (ip_allow_invalid scope be.id) 0 be.ip_allow
    good (be.id ∷ ids)

  unfoldable pub check_backends : String → ℕ → List Backend → List String → Checked (List String)
  check_backends scope i [] ids = good ids
  check_backends scope i (be ∷ bes) ids =
      check_backend scope i be ids >>= check_backends scope (suc i) bes

unfoldable pub check_link : ℕ → Link → List String → Checked (List String)
check_link i l ids = do
  need (not (l.id == "")) (id_required "services.links" i)
  need (not (is_known ids l.id)) (id_duplicate l.id)
  need (not (l.url == "")) (link_url_required l.id)
  good (l.id ∷ ids)

unfoldable pub check_links : ℕ → List Link → List String → Checked (List String)
check_links i [] ids = good ids
check_links i (l ∷ ls) ids = check_link i l ids >>= check_links (suc i) ls

unfoldable pub check_monitors : ℕ → List Monitor → Checked Unit
check_monitors i [] = good tt
check_monitors i (m ∷ ms) = do
  need (not (m.id == "")) (monitor_id_required i)
  need (not (m.url == "")) (monitor_url_required m.id)
  check_monitors (suc i) ms

unfoldable pub check_grants : String → List String → List String → Checked Unit
check_grants email ids [] = good tt
check_grants email ids (b ∷ bs) = do
  need (is_known ids b) (user_service_unknown email b)
  check_grants email ids bs

unfoldable pub check_users : List String → List String → ℕ → List User → Checked Unit
check_users provider_ids ids i [] = good tt
check_users provider_ids ids i (u ∷ us) = do
  need (not (u.email == "")) (user_email_required i)
  need (is_known provider_ids u.provider) (user_provider_unknown u.email u.provider)
  need (not (u.provider == "local" && u.password_hash == "")) (user_needs_password u.email)
  check_grants u.email ids u.backends
  check_users provider_ids ids (suc i) us

-- the checks before the providers
unfoldable pub check_server : NetLib → Config → Checked Unit
check_server net c = do
  need (not (c.server.listen == "")) listen_required
  need (is_one_of valid_tls_modes c.tls.mode) (tls_mode_invalid c.tls.mode)
  need (not (c.tls.mode == "acme" && c.tls.acme.pdns_api_url == "")) acme_needs_pdns
  need (is_one_of valid_stores c.session.store) (store_invalid c.session.store)
  check_cidrs net (λ i. cidr_invalid) 0 (c.admin.ip_whitelist ++ c.server.trusted_proxies)

-- Validate; good is no error
unfoldable pub validate : NetLib → Bundle → Checked Unit
validate net b = do
  let c = b.config
  check_server net c
  provider_ids ← check_providers 0 c.providers []
  need (not (c.auth_mode && eqb (enabled_count c.providers) 0)) no_provider_enabled
  config_ids ← check_backends net "config.backends" 0 c.backends []
  service_ids ← check_backends net "services.backends" 0 b.services.backends config_ids
  ids ← check_links 0 b.services.links service_ids
  check_cidrs net admin_cidr_invalid 0 b.services.admin_ip_whitelist
  check_monitors 0 b.services.monitors
  check_users provider_ids ids 0 b.users.users
