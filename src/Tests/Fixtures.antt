-- ===== src/Tests/Fixtures.antt =====
-- A small gate: two services on one host, three users, and simple stand-ins for the libraries.
use xal_tor_ka.Base.{
  ℕ, String, Bool, true, false, ◌&&◌, none, some, List, [], ◌∷◌, ◌==◌, if◌then◌else◌, Dict, pos,
}
use xal_tor_ka.Models.Services.{ProviderCfg, Route, NginxOpts, Backend}
use xal_tor_ka.Models.Settings.{Config}
use xal_tor_ka.Models.Identity.{User, Session}
use xal_tor_ka.Auth.Sessions.{MemoryStore, fresh_session}
use xal_tor_ka.Matrix.{Resolver}
use xal_tor_ka.Providers.Ldap.{Ldap, LdapNet}
use xal_tor_ka.Handlers.Net.{NetLib, Request}
use xal_tor_ka.Handlers.Next.{UrlLib}
use xal_tor_ka.Handlers.Login.{Outside, Chance, Hashes}
use xal_tor_ka.Handlers.Server.{Server, Moment}

-- an address is its text, and a network holds the one address that it is
abbrev pub net_lib : NetLib
net_lib = record {
  Ip = String;
  Cidr = String;
  parse_ip = (λ s. if s == "" then none else some s);
  parse_cidr = (λ s. if s == "bad" then none else some s);
  contains = (λ c ip. c == ip);
}

abbrev pub url_lib : UrlLib
url_lib = record {
  parse_url = (λ s. if s == "https://app.local/x" then some ("https", "app.local") else none);
  url_path = (λ s. some s);
  query_escape = (λ s. s);
}

abbrev pub ldap_lib : LdapNet
ldap_lib = record {
  sprintf = (λ template v. v);
  dial = (λ url skip. true);
  upgrade = (λ url skip. true);
  bind = (λ url dn pw. dn == "eve" && pw == "ldap-pw");
}

abbrev pub outside : Outside
outside = record { verify_password = (λ hash pw. hash == pw); ldap_net = ldap_lib; url = url_lib }

abbrev pub twenty_bytes : List ℕ
twenty_bytes =
    1 ∷ 2 ∷ 3 ∷ 4 ∷ 5 ∷ 6 ∷ 7 ∷ 8 ∷ 9 ∷ 10 ∷ 11 ∷ 12 ∷ 13 ∷ 14 ∷ 15 ∷ 16 ∷ 17 ∷ 18 ∷ 19 ∷ 4 ∷ []

abbrev pub hmac : List ℕ → List ℕ → List ℕ
hmac key msg = twenty_bytes

abbrev pub hashes : Hashes
hashes = record {
  hmac_sha1 = hmac;
  to_upper = (λ s. s);
  base32 = (λ s. if s == "" then none else some (7 ∷ []));
}

abbrev pub no_opts : NginxOpts
no_opts = record {
  proxy_timeout = pos 0;
  max_body_mb = pos 0;
  web_socket = false;
  no_buffering = false;
  backend_self_signed = false;
  custom_server = "";
  custom_location = "";
}

abbrev pub root_route : Route
root_route = record {
  path = "/";
  rule = "authorized";
  upstream = "http://app:80";
  own_grants = false;
}

abbrev pub team_route : Route
team_route = record {
  path = "/team";
  rule = "authorized";
  upstream = "app:8080";
  own_grants = true;
}

abbrev pub files_route : Route
files_route = record {
  path = "/team/files";
  rule = "whitelist";
  upstream = "app:8080";
  own_grants = false;
}

abbrev pub service : String → List Route → Backend
service id routes = record {
  id = id;
  name = "";
  description = "";
  host = "app.local";
  url = "";
  www = false;
  disabled = false;
  unlisted = false;
  image = "";
  ip_allow = [];
  routes = routes;
  health = record { url = ""; interval_seconds = pos 0; timeout_seconds = pos 0 };
  nginx = no_opts;
  hosting = none;
  waf = none;
}

abbrev pub app : Backend
app = service "app" (root_route ∷ team_route ∷ files_route ∷ [])

abbrev pub person : String → String → Bool → List String → User
person email provider admin grants = record {
  email = email;
  provider = provider;
  password_hash = "secret";
  totp_secret = "KEY";
  admin = admin;
  backends = grants;
}

abbrev pub ann : User
ann = person "ann" "local" true []

abbrev pub bob : User
bob = person "bob" "local" false ("app#/team" ∷ [])

abbrev pub local_provider : ProviderCfg
local_provider = record {
  id = "local";
  type = "local";
  name = "";
  enabled = true;
  issuer = "";
  client_id = "";
  ldap_url = "";
  ldap_bind_dn_template = "";
  ldap_base_dn = "";
  ldap_start_tls = false;
  ldap_insecure_skip_verify = false;
}

abbrev pub config : Config
config = record {
  auth_mode = true;
  disable_totp = false;
  auth_log = "";
  one_time_code = record {
    enabled = true;
    channel = "spool";
    ttl_minutes = pos 10;
    code_length = pos 6;
    cooldown_seconds = pos 60;
  };
  server = record {
    listen = ":80";
    external_url = "https://app.local";
    trusted_proxies = "proxy" ∷ [];
  };
  tls = record {
    mode = "external";
    domains = [];
    acme = record { provider = ""; pdns_api_url = ""; email = "" };
  };
  session = record {
    cookie_name = "xtk";
    cookie_domain = "";
    ttl_minutes = pos 60;
    idle_timeout_minutes = pos 5;
    store = "memory";
    sqlite_path = "";
  };
  admin = record { ip_whitelist = "office" ∷ [] };
  providers = local_provider ∷ [];
  users_file = "";
  secrets_file = "";
  services_file = "";
  monitoring = record {
    alerting = record {
      telegram = record { enabled = false; chat_id = "" };
      email = record { enabled = false; smtp_host = ""; from = ""; to = [] };
    };
  };
  remote_control = record {
    enabled = false;
    allow_commands = [];
    telegram = record { enabled = false; allow_chat_ids = []; poll_seconds = pos 0 };
    email = record {
      enabled = false;
      imap_host = "";
      imap_port = pos 0;
      user = "";
      folder = "";
      require_dkim = false;
      allow_from = [];
      poll_seconds = pos 0;
    };
  };
  os_updates = record {
    automation = "";
    notify = false;
    notify_on = "";
    channels = [];
    poll_hours = pos 0;
  };
  backends = app ∷ [];
}

-- a session opened at 10
abbrev pub session_of : String → String → Bool → Session
session_of id email done = record (fresh_session id email "local" 10) { two_fa_done = done }

abbrev pub store : Dict Session → MemoryStore
store m = record { m = m; ttl = pos 1000; idle = pos 500; path = ""; file = none }

abbrev pub eve_ldap : Ldap
eve_ldap = record {
  id = "corp";
  url = "ldaps://corp";
  bind_dn_template = "%s";
  start_tls = true;
  insecure_skip = false;
}

abbrev pub resolver : Resolver
resolver = record { backends = app ∷ [] }

abbrev pub server : Server
server = record {
  cfg = config;
  users = record { by_email = ("ann", ann) ∷ ("bob", bob) ∷ [] };
  sessions = store (
      ("a", session_of "a" "ann" true)
      ∷ ("b", session_of "b" "bob" true)
      ∷ ("c", session_of "c" "bob" false)
      ∷ []);
  resolver = resolver;
  base_backends = app ∷ [];
  base_providers = local_provider ∷ [];
  links = [];
  admin_ips = [];
  monitors = [];
  providers = none;
  audit = some [];
  ldap = eve_ldap ∷ [];
  otp = none;
  otp_queue = none;
  upstream_localhost = "host.docker.internal";
  services_file = none;
  users_file = [];
  secrets_file = none;
  setup_file = none;
}

abbrev pub request : String → String → Request
request cookie uri = record {
  remote_addr = "office:1234";
  host = "app.local";
  path = uri;
  x_original_host = "app.local:443";
  x_original_uri = uri;
  x_real_ip = "";
  x_forwarded_for = "";
  cookies = ("xtk", cookie) ∷ [];
  query = [];
  form = none;
  lists = [];
  referer = "";
}

abbrev pub at_20 : Moment
at_20 = record { now = 20; written = true }

abbrev pub chance_n : Chance
chance_n = record { moment = at_20; id = some "n" }

abbrev pub form_of : List (String × String) → Request
form_of fields = record (request "c" "/login") { form = some fields }
