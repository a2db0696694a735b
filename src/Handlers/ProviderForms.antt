-- ===== src/Handlers/ProviderForms.antt =====
-- handlers/providers.go: the forms of the providers page. The test of a provider speaks to its
-- issuer and changes nothing; it is not modelled.
pub mod Laws
use xal_tor_ka.Base.{
  ℕ, zero, suc, ◌+◌, ◌-◌, ◌*◌, ◌/◌, ◌%◌, ◌^◌, ◌≤◌, ◌<◌, String, Char, code, ◌≡◌, refl, sym, ap, ◌∙◌,
  ◌≢◌, ◌↔◌, ◌⊎◌, inl, inr, Bool, true, false, not, ◌&&◌, ◌||◌, Option, none, some, List, [], ◌∷◌,
  ◌++◌, map, arith, ◌==◌, eq_iff, eq_refl, ltb, leb, eqb, if◌then◌else◌, ltb→lt, lt→ltb, leb→le,
  ltb→le, eqb→eq, eqb_refl, Bool-cases, Option-cases, some_eq, is_some, and→both, both→and,
  or→either, length, take, drop, length-append, length-take, length-drop, take-append-drop, any,
  all, keep, In, All, All-append, All-map, All-at, All-of, In-append_left, In-append_right,
  In-append, any→In, In→any, any-eq-false, all→All, keep-In, In-keep, has_prefix, trim_right,
  trim_char, index_char, has_char, trim_space, ne→false, false→ne, last_index_char,
  has_prefix→append, has_prefix-append, trim_char-lacks, len-cons, len-nil, len-cons-pos,
  has_prefix_unique, has_prefix_refl, has_prefix_shorter, eq-nil_of_len, ne-nil_of_len, Dict,
  lookup, insert, delete, has_key, lookup-insert, lookup-insert_self, lookup-delete, dict_laws, ℤ,
  pos, negsuc, sub_ℕ, ltb_ℤ, is_pos, add_clamped,
}
use xal_tor_ka.Models.Services.{
  ProviderCfg, Route, Health, WafCfg, HostingRef, NginxOpts, Backend, Link, Monitor, Services,
}
use xal_tor_ka.Models.Settings.{Secrets, ProviderSecret}
use xal_tor_ka.Handlers.Net.{NetLib, Request, form_value}
use xal_tor_ka.Handlers.Next.{UrlLib}
use xal_tor_ka.Handlers.Reply.{
  Reply, Response, Refusal, Page, said, redirect, page, answer, error_page, refusal_page,
}
use xal_tor_ka.Handlers.Server.{Server}
use xal_tor_ka.Handlers.Admin.{
  Effects, Edited, refused, edited, bad_request, guarded, mutate_services,
}
use xal_tor_ka.Handlers.Admin.Users.{internal_error}

-- isConfigProvider
unfoldable pub is_config_provider : Server → String → Bool
is_config_provider s id = any (λ p. p.id == id) s.base_providers

-- setProviderSecret; true is no error. `ok` is the success of the write.
unfoldable pub set_provider_secret : Bool → String → String → Server → Bool × Server
set_provider_secret ok id secret s = elim s.secrets_file [
  | none ↦ (false, s)
  | some sec ↦
      let held : ProviderSecret = record { client_secret = secret } in
      if ok
      then (
        true,
        record s { secrets_file = some (record sec { providers = insert id held sec.providers }) },
      )
      else (false, s)
]

-- if secret != "" { … }
unfoldable pub set_secret_if_given : Bool → String → String → Server → Bool × Server
set_secret_if_given ok id secret s =
    if secret == "" then (true, s) else set_provider_secret ok id secret s

unfoldable pub provider_of : Request → String → ProviderCfg
provider_of r id = record {
  id = id;
  type = "oidc";
  name = trim_space (form_value r "name");
  enabled = not (form_value r "enabled" == "");
  issuer = trim_space (form_value r "issuer");
  client_id = trim_space (form_value r "client_id");
  ldap_url = "";
  ldap_bind_dn_template = "";
  ldap_base_dn = "";
  ldap_start_tls = false;
  ldap_insecure_skip_verify = false;
}

-- enabled && (issuer == "" || clientID == "")
unfoldable pub is_incomplete : ProviderCfg → Bool
is_incomplete p = p.enabled && (p.issuer == "" || p.client_id == "")

unfoldable pub add_provider : ProviderCfg → Services → Edited Services
add_provider p svc =
    if any (λ q. q.id == p.id) svc.providers
    then refused (said "err.prov_exists")
    else edited (record svc { providers = svc.providers ++ (p ∷ []) })

-- the loops: the first provider of the id is changed, none where there is none
unfoldable pub change_providers :
    String → (ProviderCfg → ProviderCfg) → List ProviderCfg → Option (List ProviderCfg)
change_providers id f [] = none
change_providers id f (p ∷ ps) =
    let rest : Option (List ProviderCfg) = elim (change_providers id f ps) [
      | none ↦ none
      | some ts ↦ some (p ∷ ts)
    ] in
    if p.id == id then some (f p ∷ ps) else rest

unfoldable pub change_provider : String → (ProviderCfg → ProviderCfg) → Services → Edited Services
change_provider id f svc = elim (change_providers id f svc.providers) [
  | none ↦ refused (said "err.backend_not_found")
  | some ps ↦ edited (record svc { providers = ps })
]

unfoldable pub edited_provider : ProviderCfg → ProviderCfg → ProviderCfg
edited_provider new p = record p {
  name = new.name;
  issuer = new.issuer;
  client_id = new.client_id;
  enabled = new.enabled;
}

unfoldable pub del_provider : String → Services → Edited Services
del_provider id svc = edited (record svc { providers = keep (λ p. not (p.id == id)) svc.providers })

-- providerRedirectAfter
unfoldable pub provider_redirect_after : Option Refusal → Response
provider_redirect_after (some why) = answer (page 400 (refusal_page why))
provider_redirect_after none = answer (redirect "/admin/providers")

module _ (net : NetLib) (url : UrlLib) (e : Effects) (secret_saved : Bool) where
  -- the secret first, then services.json
  unfoldable pub write_provider :
      String → String → (Services → Edited Services) → Server → Response × Server
  write_provider id secret fn s =
      let (ok, s1) = set_secret_if_given secret_saved id secret s in
      let (err, s2) = mutate_services e fn s1 in
      if ok then (provider_redirect_after err, s2) else (internal_error, s1)

  unfoldable pub provider_add : Request → Server → Response × Server
  provider_add r s =
      let id = trim_space (form_value r "id") in
      let p = provider_of r id in
      if id == ""
      then (bad_request "err.prov_id_required", s)
      else if is_config_provider s id
      then (bad_request "err.prov_exists", s)
      else if is_incomplete p
      then (bad_request "err.prov_incomplete", s)
      else write_provider id (form_value r "client_secret") (add_provider p) s

  unfoldable pub handle_provider_add : Request → Server → Response × Server
  handle_provider_add = guarded net url e provider_add

  unfoldable pub provider_edit : Request → Server → Response × Server
  provider_edit r s =
      let id = form_value r "id" in
      let p = provider_of r id in
      if is_incomplete p
      then (bad_request "err.prov_incomplete", s)
      else write_provider id (form_value r "client_secret") (change_provider id (edited_provider p))
          s

  unfoldable pub handle_provider_edit : Request → Server → Response × Server
  handle_provider_edit = guarded net url e provider_edit

  -- an error of the clean-up of the secret is ignored
  unfoldable pub provider_del : Request → Server → Response × Server
  provider_del r s =
      let id = form_value r "id" in
      let (err, s1) = mutate_services e (del_provider id) s in
      let cleared = (set_provider_secret secret_saved id "" s1).1 in
      elim err [
        | some why ↦ (provider_redirect_after (some why), s1)
        | none ↦ (provider_redirect_after none, cleared)
      ]

  unfoldable pub handle_provider_del : Request → Server → Response × Server
  handle_provider_del = guarded net url e provider_del

  unfoldable pub provider_toggle : Request → Server → Response × Server
  provider_toggle r s =
      let flip : ProviderCfg → ProviderCfg = (λ p. record p { enabled = not p.enabled }) in
      let (err, s') = mutate_services e (change_provider (form_value r "id") flip) s in
      (provider_redirect_after err, s')

  unfoldable pub handle_provider_toggle : Request → Server → Response × Server
  handle_provider_toggle = guarded net url e provider_toggle
