-- ===== src/Models/Settings.antt =====
-- models/config.go, the structures of config.json and secrets.json.
use xal_tor_ka.Base.{String, Bool, List, Dict, ℤ}
use xal_tor_ka.Models.Services.{Backend, ProviderCfg}

pub record OsUpdatesCfg : Type 0 where
  pub automation : String
  pub notify : Bool
  pub notify_on : String
  pub channels : List String
  pub poll_hours : ℤ

pub record OneTimeCodeCfg : Type 0 where
  pub enabled : Bool
  pub channel : String
  pub ttl_minutes : ℤ
  pub code_length : ℤ
  pub cooldown_seconds : ℤ

pub record ServerCfg : Type 0 where
  pub listen : String
  pub external_url : String
  pub trusted_proxies : List String

pub record AcmeCfg : Type 0 where
  pub provider : String
  pub pdns_api_url : String
  pub email : String

pub record TlsCfg : Type 0 where
  pub mode : String
  pub domains : List String
  pub acme : AcmeCfg

pub record SessionCfg : Type 0 where
  pub cookie_name : String
  pub cookie_domain : String
  pub ttl_minutes : ℤ
  pub idle_timeout_minutes : ℤ
  pub store : String
  pub sqlite_path : String

pub record AdminCfg : Type 0 where
  pub ip_whitelist : List String

pub record TelegramCfg : Type 0 where
  pub enabled : Bool
  pub chat_id : String

pub record EmailCfg : Type 0 where
  pub enabled : Bool
  pub smtp_host : String
  pub from : String
  pub to : List String

pub record AlertingCfg : Type 0 where
  pub telegram : TelegramCfg
  pub email : EmailCfg

pub record MonitoringCfg : Type 0 where
  pub alerting : AlertingCfg

pub record TelegramInCfg : Type 0 where
  pub enabled : Bool
  pub allow_chat_ids : List String
  pub poll_seconds : ℤ

pub record EmailInCfg : Type 0 where
  pub enabled : Bool
  pub imap_host : String
  pub imap_port : ℤ
  pub user : String
  pub folder : String
  pub require_dkim : Bool
  pub allow_from : List String
  pub poll_seconds : ℤ

pub record RemoteControlCfg : Type 0 where
  pub enabled : Bool
  pub allow_commands : List String
  pub telegram : TelegramInCfg
  pub email : EmailInCfg

pub record Config : Type 0 where
  pub auth_mode : Bool
  pub disable_totp : Bool
  pub auth_log : String
  pub one_time_code : OneTimeCodeCfg
  pub server : ServerCfg
  pub tls : TlsCfg
  pub session : SessionCfg
  pub admin : AdminCfg
  pub providers : List ProviderCfg
  pub users_file : String
  pub secrets_file : String
  pub services_file : String
  pub monitoring : MonitoringCfg
  pub remote_control : RemoteControlCfg
  pub os_updates : OsUpdatesCfg
  pub backends : List Backend

pub record ImapSecret : Type 0 where
  pub password : String

pub record ProviderSecret : Type 0 where
  pub client_secret : String

pub record TelegramSecret : Type 0 where
  pub bot_token : String

pub record SmtpSecret : Type 0 where
  pub username : String
  pub password : String

pub record AcmeSecret : Type 0 where
  pub pdns_api_key : String

pub record Secrets : Type 0 where
  pub admin_password_hash : String
  pub providers : Dict ProviderSecret
  pub telegram : TelegramSecret
  pub smtp : SmtpSecret
  pub acme : AcmeSecret
  pub imap : ImapSecret
