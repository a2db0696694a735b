-- ===== src/Tests/Settings.antt =====
-- The checks on a configuration, at a small one.
use xal_tor_ka.Base.{
  refl, false, [], ◌∷◌, has_prefix, trim_char, has_char, trim_space, last_index_char,
}
use xal_tor_ka.Models.Settings.{Secrets}
use xal_tor_ka.Handlers.Net.{split_host_port, split_plain}
use xal_tor_ka.Config.Validate.{
  Bundle, need, drop_char, after_scheme, host_and_port, digits_value, unsigned, atoi, is_port,
  is_host_and_port, validate_upstream_port, is_known, check_provider, check_providers,
  enabled_count, check_routes, is_cidr, check_cidrs, check_backend, check_backends, check_link,
  check_links, check_monitors, check_grants, check_users, check_server, validate,
}
use xal_tor_ka.Config.Validate.Accepted.{Valid, validate-Valid}
use xal_tor_ka.Tests.Fixtures.{net_lib, config, ann, person}

abbrev secrets : Secrets
secrets = record {
  admin_password_hash = "";
  providers = [];
  telegram = record { bot_token = "" };
  smtp = record { username = ""; password = "" };
  acme = record { pdns_api_key = "" };
  imap = record { password = "" };
}

abbrev bundle : Bundle
bundle = record {
  config = config;
  secrets = secrets;
  users = record { users = ann ∷ person "bob" "local" false ("app" ∷ []) ∷ [] };
  services = record {
    admin_ip_whitelist = "office" ∷ [];
    backends = [];
    links = [];
    monitors = [];
    providers = [];
  };
}

validate-Valid_example : Valid net_lib bundle
unfolding need drop_char after_scheme host_and_port digits_value unsigned atoi is_port
    is_host_and_port validate_upstream_port is_known check_provider check_providers enabled_count
    check_routes is_cidr check_cidrs check_backend check_backends check_link check_links
    check_monitors check_grants check_users check_server validate split_host_port split_plain
    trim_char has_prefix has_char last_index_char trim_space
validate-Valid_example = validate-Valid net_lib bundle refl
