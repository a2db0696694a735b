-- ===== src/Models/Services.antt =====
-- models/config.go, the structures of services.json and the providers.
use xal_tor_ka.Base.{String, Bool, List, Option, ℤ}

pub record ProviderCfg : Type 0 where
  pub id : String
  pub type : String
  pub name : String
  pub enabled : Bool
  pub issuer : String
  pub client_id : String
  pub ldap_url : String
  pub ldap_bind_dn_template : String
  pub ldap_base_dn : String
  pub ldap_start_tls : Bool
  pub ldap_insecure_skip_verify : Bool

pub record Route : Type 0 where
  pub path : String
  pub rule : String
  pub upstream : String
  pub own_grants : Bool

pub record Health : Type 0 where
  pub url : String
  pub interval_seconds : ℤ
  pub timeout_seconds : ℤ

pub record WafCfg : Type 0 where
  pub enabled : Bool
  pub mode : String
  pub paranoia : ℤ
  pub threshold : ℤ
  pub disabled_rules : List ℤ
  pub ignore_ips : List String
  pub custom_rules : String

pub record HostingRef : Type 0 where
  pub site : String
  pub vhost : String

pub record NginxOpts : Type 0 where
  pub proxy_timeout : ℤ
  pub max_body_mb : ℤ
  pub web_socket : Bool
  pub no_buffering : Bool
  pub backend_self_signed : Bool
  pub custom_server : String
  pub custom_location : String

pub record Backend : Type 0 where
  pub id : String
  pub name : String
  pub description : String
  pub host : String
  pub url : String
  pub www : Bool
  pub disabled : Bool
  pub unlisted : Bool
  pub image : String
  pub ip_allow : List String
  pub routes : List Route
  pub health : Health
  pub nginx : NginxOpts
  pub hosting : Option HostingRef
  pub waf : Option WafCfg

pub record Link : Type 0 where
  pub id : String
  pub name : String
  pub url : String
  pub description : String
  pub public : Bool
  pub disabled : Bool

pub record Monitor : Type 0 where
  pub id : String
  pub name : String
  pub url : String
  pub interval_seconds : ℤ
  pub timeout_seconds : ℤ

pub record Services : Type 0 where
  pub admin_ip_whitelist : List String
  pub backends : List Backend
  pub links : List Link
  pub monitors : List Monitor
  pub providers : List ProviderCfg
