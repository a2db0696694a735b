-- ===== src/Config/Validate/Laws.antt =====
-- config/validate.go: what each loop of Validate finds out, and the ids it collects.
use xal_tor_ka.Base.{
  ℕ, suc, ◌≤◌, String, ◌≡◌, refl, sym, inl, inr, true, not, Option, none, some, List, [], ◌∷◌, map,
  arith, ◌==◌, eq_iff, Option-cases, and→both, In, All, trim_space, ℤ, pos, negsuc,
}
use xal_tor_ka.Models.Services.{ProviderCfg, Route, Backend, Link}
use mathlib.Core.Path.{subst}
use xal_tor_ka.Handlers.Net.{NetLib, split_host_port}
use xal_tor_ka.Config.Validate.{
  Fault, good, valid_rules, host_and_port, atoi, is_port, is_host_and_port, validate_upstream_port,
  check_provider, check_providers, check_routes, is_cidr, check_cidrs, check_backend,
  check_backends, check_link, check_links,
}
use xal_tor_ka.Base.{Adds}
use xal_tor_ka.Config.Validate.Rules.{
  Upstream, RouteOk, ProviderOk, BackendOk, LinkOk, need-then, then-good, bind-good, not-empty,
  one_of-In, unknown→new, unless-three, good_eq, either-type,
}

is_port→bounds :
    (o : Option ℤ) → is_port o ≡ true → (n : ℕ) × (o ≡ some (pos n)) × (1 ≤ n) × (n ≤ 65535)
unfolding is_port
is_port→bounds none h = cc
is_port→bounds (some (negsuc n)) h = cc
is_port→bounds (some (pos n)) h = (n, refl, ground arith, ground arith)

pub validate_upstream_port-Upstream : (u : String) → validate_upstream_port u ≡ true → Upstream u
unfolding validate_upstream_port is_host_and_port
validate_upstream_port-Upstream u h = elim (Option-cases (split_host_port (host_and_port u))) [
  | inl e ↦ absurd (cc (rw e at h))
  | inr ((host, port), e) ↦
      let (given, k) = and→both (not (host == "")) (is_port (atoi port)) (rw e at h) in
      let (n, q, low, high) = is_port→bounds (atoi port) k in
      (host, port, n, e, not-empty host given, q, low, high)
]

check_routes-ok :
    (scope id : String) (j : ℕ) (rs : List Route)
    → check_routes scope id j rs ≡ good tt
    → All RouteOk rs
unfolding check_routes
check_routes-ok scope id j [] h = tt
check_routes-ok scope id j (r ∷ rs) h =
    let (rule, h1) = need-then _ _ _ _ h in
    let (up, h2) = need-then _ _ _ _ h1 in
    (
      record {
        rule_known = one_of-In valid_rules r.rule rule;
        upstream_ok = validate_upstream_port-Upstream r.upstream up;
      },
      check_routes-ok scope id (suc j) rs h2,
    )

check_provider-ok :
    (i : ℕ) (p : ProviderCfg) (ids after : List String)
    → check_provider i p ids ≡ good after
    → ProviderOk p × (¬ In p.id ids) × (p.id ∷ ids ≡ after)
unfolding check_provider
check_provider-ok i p ids after h =
    let (given, h1) = need-then _ _ _ _ h in
    let (fresh, h2) = need-then _ _ _ _ h1 in
    let (type, h3) = need-then _ _ _ _ h2 in
    let (issuer, h4) = need-then _ _ _ _ h3 in
    let (client, h5) = need-then _ _ _ _ h4 in
    (
      record {
        id_given = not-empty p.id given;
        type_known = either-type p.type "oidc" "local" type;
        issuer_given = (λ e q.
            unless-three p.enabled (p.type == "oidc") (trim_space p.issuer) issuer e
              ((eq_iff p.type "oidc").1 q));
        client_given = (λ e q.
            unless-three p.enabled (p.type == "oidc") (trim_space p.client_id) client e
              ((eq_iff p.type "oidc").1 q));
      },
      unknown→new ids p.id fresh,
      good_eq h5,
    )

pub check_providers-ok :
    (i : ℕ) (ps : List ProviderCfg) (ids after : List String)
    → check_providers i ps ids ≡ good after
    → All ProviderOk ps × Adds (map (λ p. p.id) ps) ids after
unfolding check_providers
check_providers-ok i [] ids after h = (tt, good_eq h)
check_providers-ok i (p ∷ ps) ids after h =
    let (mid, h1, h2) = bind-good (check_provider i p ids) _ _ h in
    let (ok, fresh, e) = check_provider-ok i p ids mid h1 in
    let (oks, adds) = check_providers-ok (suc i) ps mid after h2 in
    ((ok, oks), (fresh, subst (λ x. Adds (map (λ q. q.id) ps) x after) (sym e) adds))

pub check_links-ok :
    (i : ℕ) (ls : List Link) (ids after : List String)
    → check_links i ls ids ≡ good after
    → All LinkOk ls × Adds (map (λ l. l.id) ls) ids after
unfolding check_links check_link
check_links-ok i [] ids after h = (tt, good_eq h)
check_links-ok i (l ∷ ls) ids after h =
    let (mid, h1, h2) = bind-good (check_link i l ids) _ _ h in
    let (given, k1) = need-then _ _ _ _ h1 in
    let (fresh, k2) = need-then _ _ _ _ k1 in
    let (url, k3) = need-then _ _ _ _ k2 in
    let (oks, adds) = check_links-ok (suc i) ls mid after h2 in
    (
      (record { id_given = not-empty l.id given; url_given = not-empty l.url url }, oks),
      (
        unknown→new ids l.id fresh,
        subst (λ x. Adds (map (λ q. q.id) ls) x after) (sym (good_eq k3)) adds,
      ),
    )

module _ (net : NetLib) where
  pub check_cidrs-ok :
      (fault : ℕ → String → Fault) (i : ℕ) (cs : List String)
      → check_cidrs net fault i cs ≡ good tt
      → All (λ c. is_cidr net c ≡ true) cs
  unfolding check_cidrs
  check_cidrs-ok fault i [] h = tt
  check_cidrs-ok fault i (c ∷ cs) h =
      let (ok, h1) = need-then _ _ _ _ h in (ok, check_cidrs-ok fault (suc i) cs h1)

  check_backend-ok :
      (scope : String) (i : ℕ) (be : Backend) (ids after : List String)
      → check_backend net scope i be ids ≡ good after
      → BackendOk net be × (¬ In be.id ids) × (be.id ∷ ids ≡ after)
  unfolding check_backend
  check_backend-ok scope i be ids after h =
      let (given, h1) = need-then _ _ _ _ h in
      let (fresh, h2) = need-then _ _ _ _ h1 in
      let (host, h3) = need-then _ _ _ _ h2 in
      let (routes, h4) = then-good (check_routes scope be.id 0 be.routes) _ _ h3 in
      let (nets, h5) = then-good _ _ _ h4 in
      (
        record {
          id_given = not-empty be.id given;
          host_given = not-empty be.host host;
          routes_ok = check_routes-ok scope be.id 0 be.routes routes;
          networks_ok = check_cidrs-ok _ 0 be.ip_allow nets;
        },
        unknown→new ids be.id fresh,
        good_eq h5,
      )

  pub check_backends-ok :
      (scope : String) (i : ℕ) (bs : List Backend) (ids after : List String)
      → check_backends net scope i bs ids ≡ good after
      → All (BackendOk net) bs × Adds (map (λ b. b.id) bs) ids after
  unfolding check_backends
  check_backends-ok scope i [] ids after h = (tt, good_eq h)
  check_backends-ok scope i (b ∷ bs) ids after h =
      let (mid, h1, h2) = bind-good (check_backend net scope i b ids) _ _ h in
      let (ok, fresh, e) = check_backend-ok scope i b ids mid h1 in
      let (oks, adds) = check_backends-ok scope (suc i) bs mid after h2 in
      ((ok, oks), (fresh, subst (λ x. Adds (map (λ q. q.id) bs) x after) (sym e) adds))
