-- ===== src/Handlers/Admin/Networks/Laws.antt =====
-- handlers/admin.go, handleAdminIPs: the administrator who changes the networks is not locked out.
use xal_tor_ka.Base.{Sum-cases, String, ◌≡◌, ap, ◌∙◌, inl, inr, Bool, true, some, List, Bool-cases}
use xal_tor_ka.Models.Services.{Services}
use xal_tor_ka.Handlers.Net.{NetLib, Request, form_value, client_ip, ip_in_cidrs}
use xal_tor_ka.Handlers.Next.{UrlLib}
use xal_tor_ka.Handlers.Server.{Server, admin_allowed, effective_admin_ips}
use xal_tor_ka.Handlers.Services.{reloaded}
use mathlib.Core.Path.{subst}
use xal_tor_ka.Handlers.Gate.Kept.{Kept}
use xal_tor_ka.Handlers.Admin.Saved.{edited_eq, in_force, mutate_services-cases, guarded-cases}
use xal_tor_ka.Handlers.Admin.{Effects, edited, edit_services, mutate_services, load_services}
use xal_tor_ka.Handlers.Admin.Upstream.{normalize_cidrs}
use xal_tor_ka.Handlers.Admin.Networks.{set_admin_ips, effective_after, admin_ips, handle_admin_ips}

module _ (net : NetLib) (r : Request) where
  mutate-allowed :
      (e : Effects) (cidrs : List String) (s : Server)
      → ip_in_cidrs net (client_ip net r s.cfg.server.trusted_proxies) (effective_after cidrs s)
        ≡ true
      → admin_allowed net r s ≡ true
      → admin_allowed net r (mutate_services e (set_admin_ips cidrs) s).1 ≡ true
  unfolding set_admin_ips admin_allowed effective_admin_ips effective_after reloaded
  mutate-allowed e cidrs s h k =
      mutate_services-cases (λ s'. admin_allowed net r s' ≡ true) e (set_admin_ips cidrs) s k
        changed
    where
      changed :
          (svc svc' : Services)
          → load_services s ≡ some svc
          → set_admin_ips cidrs svc ≡ edited svc'
          → (admin_allowed net r (record s { services_file = e.torn }) ≡ true)
            × (admin_allowed net r (in_force svc' s) ≡ true)
      changed svc svc' q d =
          (k, subst (λ x. admin_allowed net r (in_force x s) ≡ true) (edited_eq d) h)

  admin_allowed-Kept :
      (s s' : Server) → Kept s s' → admin_allowed net r s ≡ true → admin_allowed net r s' ≡ true
  unfolding admin_allowed effective_admin_ips
  admin_allowed-Kept s s' kept h = ap (admin_allowed net r) kept ∙ h

  admin_ips-allowed :
      (is_v4 : net.Ip → Bool) (url : UrlLib) (e : Effects) (s : Server)
      → admin_allowed net r s ≡ true
      → admin_allowed net r (admin_ips net is_v4 url e r s).1 ≡ true
  unfolding admin_ips edit_services
  admin_ips-allowed is_v4 url e s h =
      elim (Sum-cases (normalize_cidrs net is_v4 (form_value r "ip_whitelist"))) [
        | inr (wrong, q) ↦ rw (q, admin_ips) h
        | inl (cidrs, q) ↦ elim (Bool-cases (holds cidrs)) [
          | inr out ↦ rw (q, out, admin_ips) h
          | inl held ↦ rw (q, held, admin_ips) (mutate-allowed e cidrs s held h)
        ]
      ]
    where
      holds : List String → Bool
      holds cidrs =
          ip_in_cidrs net (client_ip net r s.cfg.server.trusted_proxies) (effective_after cidrs s)

  -- A request from a network of the administrators is still from one after it has changed them:
  -- whichever branch handleAdminIPs takes, and whatever the disk and the proxy do, the sender is
  -- not locked out.
  pub admin_ips_keep :
      (is_v4 : net.Ip → Bool) (url : UrlLib) (e : Effects) (s : Server)
      → admin_allowed net r s ≡ true
      → admin_allowed net r (handle_admin_ips net is_v4 url e r s).1 ≡ true
  unfolding handle_admin_ips
  admin_ips_keep is_v4 url e s h =
      guarded-cases (λ s'. admin_allowed net r s' ≡ true) net url e (admin_ips net is_v4 url e) r s
        (λ s' kept. admin_allowed-Kept s s' kept h)
        (λ s' kept. admin_ips-allowed is_v4 url e s' (admin_allowed-Kept s s' kept h))
