-- ===== src/Handlers/Server.antt =====
-- handlers/server.go: the state that the handlers share, the session of a request, and the log of
-- failures. The lock makes each handler's access to the shared fields one step; a session store, a
-- directory and a resolver stand in the record as values. The parts that only write files or speak
-- to the network (NGINX, certificates, OIDC clients) are not in it. services.json, users.json,
-- secrets.json and the setup file are the last fields, decoded; none is a file that cannot be read.
use xal_tor_ka.Base.{ℕ, String, Bool, Option, none, some, List, [], ◌∷◌, ◌++◌, lookup}
use xal_tor_ka.Models.Services.{ProviderCfg, Backend, Link, Monitor, Services}
use xal_tor_ka.Models.Settings.{Config, Secrets}
use xal_tor_ka.Models.Identity.{Session, User, SetupState}
use xal_tor_ka.Auth.Sessions.{MemoryStore, get}
use xal_tor_ka.Auth.Directory.{UserDirectory}
use xal_tor_ka.Auth.Otp.{OtpStore}
use xal_tor_ka.Providers.Ldap.{Ldap}
use xal_tor_ka.Matrix.{Resolver}
use xal_tor_ka.Handlers.Net.{NetLib, Request, client_ip, ip_in_cidrs}

-- One line of the failure log: the event, and what it says behind the client's address.
pub record Failure : Type 0 where
  pub event : String
  pub detail : String

-- A line of the queue of one-time codes, without its times and the address.
pub record Spooled : Type 0 where
  pub email : String
  pub code : String

pub record Server : Type 0 where
  pub cfg : Config
  pub users : UserDirectory
  pub sessions : MemoryStore
  pub resolver : Resolver
  pub base_backends : List Backend
  pub base_providers : List ProviderCfg
  pub links : List Link
  pub admin_ips : List String
  pub monitors : List Monitor
  pub providers : Option (List ProviderCfg)
  pub audit : Option (List Failure)
  pub ldap : List Ldap
  pub otp : Option OtpStore
  pub otp_queue : Option (List Spooled)
  pub upstream_localhost : String
  pub services_file : Option Services
  pub users_file : List User
  pub secrets_file : Option Secrets
  pub setup_file : Option SetupState

-- What the clock and the disk do in one request: the instant, and whether a write succeeds.
pub record Moment : Type 0 where
  pub now : ℕ
  pub written : Bool

-- session
unfoldable pub session : Moment → Request → Server → Option Session × Server
session t r s = elim (lookup s.cfg.session.cookie_name r.cookies) [
  | none ↦ (none, s)
  | some id ↦
      let (found, store) = get t.written t.now id s.sessions in
      (found, record s { sessions = store })
]

-- auditFail; without a logger nothing is kept
unfoldable pub audit_fail : String → String → Server → Server
audit_fail event detail s = elim s.audit [
  | none ↦ s
  | some log ↦ record s { audit = some (log ++ (record { event = event; detail = detail } ∷ [])) }
]

-- effectiveAdminIPs
unfoldable pub effective_admin_ips : Server → List String
effective_admin_ips s = elim s.admin_ips [ [] ↦ s.cfg.admin.ip_whitelist | c ∷ cs ↦ c ∷ cs ]

module _ (net : NetLib) where
  -- adminAllowed
  unfoldable pub admin_allowed : Request → Server → Bool
  admin_allowed r s =
      ip_in_cidrs net (client_ip net r s.cfg.server.trusted_proxies) (effective_admin_ips s)
