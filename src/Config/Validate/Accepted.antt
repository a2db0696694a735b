-- ===== src/Config/Validate/Accepted.antt =====
-- config/validate.go: what a configuration that passes Validate satisfies.
use xal_tor_ka.Base.{
  ℕ, suc, String, ◌≡◌, refl, ◌≢◌, inl, inr, Bool, true, not, ◌&&◌, List, [], ◌∷◌, ◌++◌, map, ◌==◌,
  eq_iff, eqb, keep, In, All, keep-In,
}
use xal_tor_ka.Models.Services.{ProviderCfg, Monitor}
use xal_tor_ka.Models.Settings.{Config}
use xal_tor_ka.Models.Identity.{User}
use mathlib.Core.Path.{subst}
use xal_tor_ka.Handlers.Net.{NetLib}
use xal_tor_ka.Config.Validate.{
  Bundle, good, valid_tls_modes, valid_stores, enabled_count, is_cidr, check_providers,
  check_backends, check_links, check_monitors, check_grants, check_users, check_server, validate,
}
use xal_tor_ka.Config.Validate.Rules.{
  ProviderOk, BackendOk, LinkOk, MonitorOk, UserOk, need-then, then-good, bind-good, not-empty,
  one_of-In, known→In, unless-both,
}
use xal_tor_ka.Base.{Adds, Distinct, Adds-new, Adds-append, Adds-In}
use xal_tor_ka.Config.Validate.Laws.{
  check_cidrs-ok, check_providers-ok, check_backends-ok, check_links-ok,
}

-- The ids that a grant may name.
abbrev pub service_ids : Bundle → List String
service_ids b =
    map (λ x. x.id) b.config.backends
    ++ (map (λ x. x.id) b.services.backends ++ map (λ x. x.id) b.services.links)

abbrev pub provider_ids : Bundle → List String
provider_ids b = map (λ p. p.id) b.config.providers

pub record ServerOk (net : NetLib) (c : Config) : Type 0 where
  pub listen_given : c.server.listen ≢ ""
  pub mode_known : In c.tls.mode valid_tls_modes
  pub acme_url_given : c.tls.mode ≡ "acme" → c.tls.acme.pdns_api_url ≢ ""
  pub store_known : In c.session.store valid_stores
  pub networks_ok :
      All (λ x. is_cidr net x ≡ true) (c.admin.ip_whitelist ++ c.server.trusted_proxies)

pub record Valid (net : NetLib) (b : Bundle) : Type 0 where
  pub server_ok : ServerOk net b.config
  pub providers_ok : All ProviderOk b.config.providers
  pub providers_distinct : Distinct (provider_ids b)
  pub login_possible :
      b.config.auth_mode ≡ true → (p : ProviderCfg) × In p b.config.providers × (p.enabled ≡ true)
  pub backends_ok : All (BackendOk net) b.config.backends
  pub services_ok : All (BackendOk net) b.services.backends
  pub links_ok : All LinkOk b.services.links
  pub services_distinct : Distinct (service_ids b)
  pub admin_networks_ok : All (λ x. is_cidr net x ≡ true) b.services.admin_ip_whitelist
  pub monitors_ok : All MonitorOk b.services.monitors
  pub users_ok : All (UserOk (provider_ids b) (service_ids b)) b.users.users

check_monitors-ok : (i : ℕ) (ms : List Monitor) → check_monitors i ms ≡ good tt → All MonitorOk ms
unfolding check_monitors
check_monitors-ok i [] h = tt
check_monitors-ok i (m ∷ ms) h =
    let (given, h1) = need-then _ _ _ _ h in
    let (url, h2) = need-then _ _ _ _ h1 in
    (
      record { id_given = not-empty m.id given; url_given = not-empty m.url url },
      check_monitors-ok (suc i) ms h2,
    )

check_server-ok : (net : NetLib) (c : Config) → check_server net c ≡ good tt → ServerOk net c
unfolding check_server
check_server-ok net c h =
    let (listen, h1) = need-then _ _ _ _ h in
    let (mode, h2) = need-then _ _ _ _ h1 in
    let (acme, h3) = need-then _ _ _ _ h2 in
    let (store, h4) = need-then _ _ _ _ h3 in
    record {
      listen_given = not-empty c.server.listen listen;
      mode_known = one_of-In valid_tls_modes c.tls.mode mode;
      acme_url_given = (λ e.
          unless-both (c.tls.mode == "acme") c.tls.acme.pdns_api_url acme
            ((eq_iff c.tls.mode "acme").1 e));
      store_known = one_of-In valid_stores c.session.store store;
      networks_ok = check_cidrs-ok net _ 0 _ h4;
    }

-- A list of known ids is that of the collected ones.
abbrev Collects : List String → List String → Type 0
Collects names ids = (x : String) → In x ids → In x names

Adds-Collects : (names ids : List String) → Adds names [] ids → Collects names ids
Adds-Collects names ids h x i = elim (Adds-In names [] ids x h i) [ inl k ↦ k | inr k ↦ elim k [ ] ]

check_grants-ok :
    (email : String) (names ids bs : List String)
    → Collects names ids
    → check_grants email ids bs ≡ good tt
    → All (λ b. In b names) bs
unfolding check_grants
check_grants-ok email names ids [] sub h = tt
check_grants-ok email names ids (b ∷ bs) sub h =
    let (known, h1) = need-then _ _ _ _ h in
    (sub b (known→In ids b known), check_grants-ok email names ids bs sub h1)

module _ (pnames pids names ids : List String) (sub_p : Collects pnames pids)
    (sub : Collects names ids) where
  check_users-ok :
      (i : ℕ) (us : List User) → check_users pids ids i us ≡ good tt → All (UserOk pnames names) us
  unfolding check_users
  check_users-ok i [] h = tt
  check_users-ok i (u ∷ us) h =
      let (email, h1) = need-then _ _ _ _ h in
      let (known, h2) = need-then _ _ _ _ h1 in
      let (password, h3) = need-then _ _ _ _ h2 in
      let (grants, h4) = then-good (check_grants u.email ids u.backends) _ _ h3 in
      (
        record {
          email_given = not-empty u.email email;
          provider_known = sub_p u.provider (known→In pids u.provider known);
          password_given = (λ e.
              unless-both (u.provider == "local") u.password_hash password
                ((eq_iff u.provider "local").1 e));
          grants_known = check_grants-ok u.email names ids u.backends sub grants;
        },
        check_users-ok (suc i) us h4,
      )

enabled-In :
    (auth : Bool) (ps : List ProviderCfg)
    → not (auth && eqb (enabled_count ps) 0) ≡ true
    → auth ≡ true
    → (p : ProviderCfg) × In p ps × (p.enabled ≡ true)
unfolding enabled_count
enabled-In auth ps h e = first (keep (λ p. p.enabled) ps) refl
  where
    first :
        (found : List ProviderCfg)
        → found ≡ keep (λ p. p.enabled) ps
        → (p : ProviderCfg) × In p ps × (p.enabled ≡ true)
    first [] q = absurd (cc (rw (← q, e) at h))
    first (p ∷ found) q =
        let (i, on) = keep-In (λ x. x.enabled) p ps (subst (λ l. In p l) q (inl refl)) in (p, i, on)

-- A configuration that Validate accepts satisfies every rule of Valid. In particular provider ids
-- are distinct, and the ids of services, backends and links are distinct among each other; every
-- user names a declared provider and existing services.
pub validate-Valid : (net : NetLib) (b : Bundle) → validate net b ≡ good tt → Valid net b
unfolding validate
validate-Valid net b h =
    let (server, h1) = then-good (check_server net b.config) _ _ h in
    let (pids, provs, h2) = bind-good (check_providers 0 b.config.providers []) _ _ h1 in
    let (enabled, h3) = need-then _ _ _ _ h2 in
    let (ids1, bs, h4) =
      bind-good (check_backends net "config.backends" 0 b.config.backends []) _ _ h3 in
    let (ids2, ss, h5) =
      bind-good (check_backends net "services.backends" 0 b.services.backends ids1) _ _ h4 in
    let (ids3, ls, h6) = bind-good (check_links 0 b.services.links ids2) _ _ h5 in
    let (cidrs, h7) = then-good _ _ _ h6 in
    let (monitors, users) = then-good (check_monitors 0 b.services.monitors) _ _ h7 in
    let (providers_ok, p_adds) = check_providers-ok 0 b.config.providers [] pids provs in
    let (backends_ok, b_adds) = check_backends-ok net _ 0 b.config.backends [] ids1 bs in
    let (services_ok, s_adds) = check_backends-ok net _ 0 b.services.backends ids1 ids2 ss in
    let (links_ok, l_adds) = check_links-ok 0 b.services.links ids2 ids3 ls in
    let adds : Adds (service_ids b) [] ids3 =
      Adds-append _ _ [] ids1 ids3 b_adds (Adds-append _ _ ids1 ids2 ids3 s_adds l_adds) in
    record {
      server_ok = check_server-ok net b.config server;
      providers_ok = providers_ok;
      providers_distinct = (Adds-new _ [] pids p_adds).0;
      login_possible = enabled-In b.config.auth_mode b.config.providers enabled;
      backends_ok = backends_ok;
      services_ok = services_ok;
      links_ok = links_ok;
      services_distinct = (Adds-new _ [] ids3 adds).0;
      admin_networks_ok = check_cidrs-ok net _ 0 b.services.admin_ip_whitelist cidrs;
      monitors_ok = check_monitors-ok 0 b.services.monitors monitors;
      users_ok =
          check_users-ok (provider_ids b) pids (service_ids b) ids3 (Adds-Collects _ pids p_adds)
            (Adds-Collects _ ids3 adds) 0 b.users.users users;
    }
