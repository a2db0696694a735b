-- ===== src/Handlers/ProviderForms/Laws.antt =====
-- handlers/providers.go: an addition that is refused has written the secret before.
use xal_tor_ka.Base.{
  String, ◌≡◌, refl, ap, true, false, some, ◌==◌, any, trim_space, lookup, insert,
  lookup-insert_self,
}
use xal_tor_ka.Models.Services.{Services}
use xal_tor_ka.Models.Settings.{Secrets}
use xal_tor_ka.Handlers.Net.{NetLib, Request, form_value}
use xal_tor_ka.Handlers.Next.{UrlLib}
use xal_tor_ka.Handlers.Reply.{Refusal, said, page, answer, refusal_page}
use xal_tor_ka.Handlers.Server.{Server}
use xal_tor_ka.Handlers.Admin.{
  Effects, Edited, refused, mutate_services, load_services, save_edited,
}
use xal_tor_ka.Handlers.ProviderForms.{
  is_config_provider, set_provider_secret, set_secret_if_given, provider_of, is_incomplete,
  add_provider, provider_redirect_after, write_provider, provider_add,
}

secret-written :
    (id secret : String) (s : Server) (sec : Secrets)
    → s.secrets_file ≡ some sec
    → set_provider_secret true id secret s ≡ (
      true,
      record s {
        secrets_file = some (record sec {
          providers = insert id (record { client_secret = secret }) sec.providers;
        });
      },
    )
unfolding set_provider_secret
secret-written id secret s sec h = rw (h, set_provider_secret) refl

refused-same :
    (e : Effects) (fn : Services → Edited Services) (s : Server) (svc : Services) (why : Refusal)
    → load_services s ≡ some svc
    → fn svc ≡ refused why
    → mutate_services e fn s ≡ (some why, s)
unfolding mutate_services save_edited
refused-same e fn s svc why h k = rw (h, mutate_services) (ap (λ x. save_edited e x s) k)

-- The addition of a provider whose id services.json already has is answered with an error, but the
-- secret of the existing provider in secrets.json has been replaced by the one of the form.
pub refused_add-overwrites :
    (net : NetLib) (url : UrlLib) (e : Effects) (r : Request) (s : Server) (sec : Secrets)
    (svc : Services)
    → s.secrets_file ≡ some sec
    → load_services s ≡ some svc
    → (trim_space (form_value r "id") == "") ≡ false
    → is_config_provider s (trim_space (form_value r "id")) ≡ false
    → is_incomplete (provider_of r (trim_space (form_value r "id"))) ≡ false
    → (form_value r "client_secret" == "") ≡ false
    → any (λ p. p.id == trim_space (form_value r "id")) svc.providers ≡ true
    → ((provider_add net url e true r s).0
        ≡ answer (page 400 (refusal_page (said "err.prov_exists"))))
      × ((after : Secrets) × ((provider_add net url e true r s).1.secrets_file ≡ some after)
          × (lookup (trim_space (form_value r "id")) after.providers
              ≡ some (record { client_secret = form_value r "client_secret" })))
unfolding provider_add write_provider set_secret_if_given add_provider provider_redirect_after
    provider_of load_services
refused_add-overwrites net url e r s sec svc on_disk read named runtime complete given held = (
  ap (λ y. y.0) whole,
  (_, ap (λ y. y.1.secrets_file) whole, lookup-insert_self id _ sec.providers),
)
  where
    id : String
    id = trim_space (form_value r "id")

    secret : String
    secret = form_value r "client_secret"

    s1 : Server
    s1 = record s {
      secrets_file =
          some (record sec {
            providers = insert id (record { client_secret = secret }) sec.providers;
          });
    }

    whole :
        provider_add net url e true r s
        ≡ (answer (page 400 (refusal_page (said "err.prov_exists"))), s1)
    whole =
        rw (named, runtime, complete, provider_add, write_provider)
          (rw (given, set_secret_if_given)
            (rw (secret-written id secret s sec on_disk) (
              rw
                (refused-same e (add_provider (provider_of r id)) s1 svc (said "err.prov_exists")
                  read (rw (held, add_provider) refl))
                refl)))
