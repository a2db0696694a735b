-- ===== src/Tests/Admin.antt =====
-- The edits of the administration, by ann from the office.
use xal_tor_ka.Base.{
  ◌≤◌, String, ◌≡◌, refl, inl, inr, true, false, none, some, List, [], ◌∷◌, In, has_prefix,
  trim_char, has_char, trim_space, false→ne, last_index_char, lookup, Distinct,
}
use xal_tor_ka.Models.Services.{Backend, Services}
use xal_tor_ka.Models.Identity.{User}
use xal_tor_ka.Auth.Directory.{get_user}
use xal_tor_ka.Config.Validate.Rules.{BackendOk}
use xal_tor_ka.Handlers.Net.{
  Request, form_value, form_list, ip_in_cidrs, client_ip, peer_ip, strip_port, split_host_port,
  split_plain, split_bracketed, cidr_holds, real_ip, field,
}
use xal_tor_ka.Handlers.Reply.{said, page, answer, refusal_page, failed_outside}
use xal_tor_ka.Handlers.Server.{Server, admin_allowed, effective_admin_ips}
use xal_tor_ka.Handlers.Admin.{Effects, load_services, id_taken}
use xal_tor_ka.Handlers.Admin.Links.{add_link, link_of, del_backend}
use xal_tor_ka.Handlers.Admin.Users.{
  toggle_admin, flip_admin, target, change_last, change_first, change_user, rename_user,
  count_admins,
}
use xal_tor_ka.Handlers.Admin.Users.Admins.{toggle_admin_lem}
use xal_tor_ka.Handlers.Admin.Users.Laws.{emails, user_edit-Distinct, renames}
use xal_tor_ka.Handlers.Admin.Grants.{apply_service_grants}
use xal_tor_ka.Handlers.Admin.Grants.Laws.{failed_revocation}
use xal_tor_ka.Handlers.Admin.Form.{edit_fields, upload_none}
use xal_tor_ka.Handlers.Admin.Backends.Laws.{edit_fields-BackendOk}
use xal_tor_ka.Handlers.Admin.Networks.{handle_admin_ips}
use xal_tor_ka.Handlers.Admin.Networks.Laws.{admin_ips_keep}
use xal_tor_ka.Handlers.Admin.Ids.{
  all_ids, adds_link, dels_backend, no_edit, then_edit, edits-Distinct,
}
use xal_tor_ka.Handlers.ProviderForms.{provider_add}
use xal_tor_ka.Handlers.ProviderForms.Laws.{refused_add-overwrites}
use xal_tor_ka.Models.Settings.{Secrets}
use xal_tor_ka.Handlers.ProviderForms.{is_config_provider, is_incomplete, provider_of}
use xal_tor_ka.Handlers.Admin.Upstream.{
  normalize_cidrs, normalize_fields, as_network, fields_func, split_word, is_separator,
  validate_upstream, port_error,
}
use xal_tor_ka.Config.Validate.{
  host_and_port, after_scheme, drop_char, atoi, unsigned, digits_value, is_port,
}
use xal_tor_ka.Tests.Fixtures.{
  net_lib, url_lib, server, request, at_20, ann, bob, service, root_route, person, local_provider,
}

abbrev pub effects : Effects
effects = record {
  moment = at_20;
  services_saved = true;
  torn = none;
  applied = true;
  users_saved = true;
  paths_saved = true;
  hash_password = (λ pw. some pw);
  new_secret = some "KEY2";
  draws_qr = true;
  room = (λ email. 0);
}

abbrev files : Services
files = record {
  admin_ip_whitelist = [];
  backends = service "wiki" (root_route ∷ []) ∷ [];
  links = [];
  monitors = [];
  providers = record local_provider { id = "corp" } ∷ [];
}

abbrev running : Server
running = record server {
  services_file = some files;
  secrets_file = some (record {
    admin_password_hash = "";
    providers = ("corp", record { client_secret = "old" }) ∷ [];
    telegram = record { bot_token = "" };
    smtp = record { username = ""; password = "" };
    acme = record { pdns_api_key = "" };
    imap = record { password = "" };
  });
}

abbrev form : List (String × String) → Request
form fields = record (request "a" "/admin") { form = some fields }

abbrev networks : Request
networks = form (("ip_whitelist", "office home") ∷ [])

admin_ips_keep_example :
    admin_allowed net_lib networks
      (handle_admin_ips net_lib (λ ip. true) url_lib effects networks running).1
    ≡ true
unfolding admin_allowed effective_admin_ips ip_in_cidrs client_ip peer_ip strip_port split_host_port
    split_plain split_bracketed last_index_char has_char cidr_holds real_ip
admin_ips_keep_example = admin_ips_keep net_lib networks (λ ip. true) url_lib effects running refl

abbrev link_form : Request
link_form = form (("id", "docs") ∷ ("name", "Docs") ∷ ("url", "https://docs") ∷ [])

abbrev with_link : Services
with_link = record files {
  links =
      record {
        id = "docs";
        name = "Docs";
        url = "https://docs";
        description = "";
        public = false;
        disabled = false;
      }
      ∷ [];
}

abbrev without_wiki : Services
without_wiki = record with_link { backends = [] }

edits-Distinct_example : Distinct (all_ids running without_wiki)
unfolding add_link link_of id_taken del_backend form_value lookup field
edits-Distinct_example =
    edits-Distinct running files without_wiki
      (then_edit (del_backend "wiki") (dels_backend "wiki")
        (then_edit (add_link running link_form) (adds_link link_form) no_edit refl) refl)
      ((λ i. elim i [ inl e ↦ cc | inr j ↦ elim j [ ] ]), ((λ i. elim i [ ]), tt))

abbrev people : List User
people = ann ∷ bob ∷ []

user_edit-Distinct_example : Distinct (emails (record ann { email = "anna" } ∷ bob ∷ []))
unfolding rename_user change_user change_first
user_edit-Distinct_example =
    user_edit-Distinct (rename_user "ann" "anna") people _ (renames "ann" "anna")
      (
        (λ i. elim i [ inl e ↦ false→ne "ann" "bob" refl e | inr j ↦ elim j [ ] ]),
        ((λ i. elim i [ ]), tt),
      )
      refl

toggle_admin_lem_example : 1 ≤ count_admins (ann ∷ record bob { admin = true } ∷ [])
unfolding toggle_admin flip_admin target change_last
toggle_admin_lem_example = toggle_admin_lem "bob" people _ refl

abbrev carl : User
carl = person "carl" "local" false ("app" ∷ "wiki" ∷ [])

abbrev with_carl : Server
with_carl = record running { users = record { by_email = ("carl", carl) ∷ [] } }

abbrev revoking : Request
revoking = form (("svcuser_sent", "1") ∷ [])

abbrev disk_full : Effects
disk_full = record effects { users_saved = false }

failed_revocation_example :
    ((apply_service_grants disk_full revoking "app" with_carl).0 ≡ some failed_outside)
    × ((apply_service_grants disk_full revoking "app" with_carl).1.users_file
        ≡ with_carl.users_file)
    × ((v : User) × (get_user
            (apply_service_grants disk_full revoking "app" with_carl).1.users
            "carl"
          ≡ some v)
        × (¬ In "app" v.backends))
unfolding form_value form_list lookup get_user field
failed_revocation_example =
    failed_revocation disk_full revoking "app" "wiki" [] with_carl carl refl refl refl refl refl
      (λ i. elim i [ inl e ↦ cc | inr j ↦ elim j [ ] ])

abbrev service_form : Request
service_form = form (("host", "wiki.local") ∷ ("rule", "public") ∷ ("ip_allow", "10.0.0.0/8") ∷ [])

abbrev wiki : Backend
wiki = service "wiki" []

wiki-Ok : BackendOk net_lib wiki
wiki-Ok = record { id_given = (λ e. cc); host_given = (λ e. cc); routes_ok = tt; networks_ok = tt }

edit_fields-BackendOk_example :
    BackendOk net_lib
      (edit_fields service_form ("10.0.0.0/8" ∷ []) upload_none "http://wiki:80" wiki)
unfolding form_value lookup field validate_upstream host_and_port after_scheme drop_char
    split_host_port split_plain split_bracketed last_index_char has_char port_error atoi unsigned
    digits_value is_port trim_char has_prefix normalize_cidrs normalize_fields as_network
    fields_func split_word is_separator
edit_fields-BackendOk_example =
    edit_fields-BackendOk net_lib (λ ip. true) service_form upload_none "http://wiki:80"
      ("10.0.0.0/8" ∷ []) wiki wiki-Ok refl refl refl

abbrev provider_form : Request
provider_form = form (("id", "corp") ∷ ("client_secret", "new") ∷ [])

refused_add-overwrites_example :
    ((provider_add net_lib url_lib effects true provider_form running).0
      ≡ answer (page 400 (refusal_page (said "err.prov_exists"))))
    × ((after : Secrets) × ((provider_add net_lib url_lib effects true provider_form
            running).1.secrets_file
          ≡ some after)
        × (lookup "corp" after.providers ≡ some (record { client_secret = "new" })))
unfolding form_value lookup load_services field trim_space is_config_provider is_incomplete
    provider_of
refused_add-overwrites_example =
    refused_add-overwrites net_lib url_lib effects provider_form running _ _ refl refl refl refl
      refl refl refl
