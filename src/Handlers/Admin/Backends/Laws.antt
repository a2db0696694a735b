-- ===== src/Handlers/Admin/Backends/Laws.antt =====
-- handlers/admin.go and config/validate.go: a service that the form has changed is one that the next
-- start accepts.
use xal_tor_ka.Base.{
  ℕ, suc, String, ◌≡◌, refl, inl, inr, Bool, true, false, ◌||◌, Option, none, some, List, [], ◌∷◌,
  map, ◌==◌, eq_iff, if◌then◌else◌, Bool-cases, or→either, In, All, trim_space, false→ne,
}
use xal_tor_ka.Models.Services.{Route, HostingRef, Backend}
use xal_tor_ka.Models.Grants.{rule_public, rule_authenticated, rule_authorized, canonical_rule}
use xal_tor_ka.Config.Validate.{valid_rules}
use xal_tor_ka.Config.Validate.Rules.{BackendOk, RouteOk, Upstream}
use xal_tor_ka.Config.Validate.Laws.{validate_upstream_port-Upstream}
use xal_tor_ka.Handlers.Net.{NetLib, Request, form_value, form_list}
use xal_tor_ka.Handlers.Admin.Upstream.{validate_upstream, normalize_cidrs, split_match}
use xal_tor_ka.Handlers.Admin.Upstream.Laws.{validate_upstream_iff, normalize_cidrs-Cidr}
use xal_tor_ka.Handlers.Admin.Form.{
  Upload, Override, is_rule, edit_fields, override_rule, override_of, overrides, override_route,
  upstream_of, rule_or_authorized, nth,
}

is_rule-In : (rule : String) → is_rule rule ≡ true → In rule valid_rules
unfolding is_rule
is_rule-In rule h = elim (or→either (rule == rule_public || rule == rule_authenticated) _ h) [
  | inr e ↦ inr (inr (inl ((eq_iff rule rule_authorized).0 e)))
  | inl k ↦ elim (or→either (rule == rule_public) _ k) [
    | inl e ↦ inl ((eq_iff rule rule_public).0 e)
    | inr e ↦ inr (inl ((eq_iff rule rule_authenticated).0 e))
  ]
]

or_rule-In :
    (rule other : String)
    → In other valid_rules
    → In (if is_rule rule then rule else other) valid_rules
or_rule-In rule other h = elim (Bool-cases (is_rule rule)) [
  | inl e ↦ rw e (is_rule-In rule e)
  | inr e ↦ rw e h
]

override_rule-In : (o : Option String) → In (override_rule o) valid_rules
unfolding override_rule
override_rule-In none = inr (inl refl)
override_rule-In (some rule) = or_rule-In rule "authenticated" (inr (inl refl))

overrides-RuleKnown :
    (r : Request) (i : ℕ) (ops : List String) → All (λ o. In o.rule valid_rules) (overrides r i ops)
unfolding overrides override_of
overrides-RuleKnown r i [] = tt
overrides-RuleKnown r i (op ∷ ops) =
    let rest = overrides-RuleKnown r (suc i) ops in
    elim (Bool-cases ((split_match (trim_space op)).0 == "")) [
      | inl e ↦ rw e rest
      | inr e ↦ rw e (override_rule-In (nth (form_list r "orule") i), rest)
    ]

routes-Ok :
    (up : String) (os : List Override)
    → Upstream up
    → All (λ o. In o.rule valid_rules) os
    → All RouteOk (map (override_route up) os)
unfolding override_route
routes-Ok up [] h k = tt
routes-Ok up (o ∷ os) h (known, k) =
    (record { rule_known = known; upstream_ok = h }, routes-Ok up os h k)

Upstream-Kept :
    (b : Backend) (upstream : String)
    → Upstream upstream
    → All RouteOk b.routes
    → Upstream (upstream_of b upstream)
unfolding upstream_of
Upstream-Kept b upstream h k = by_hosting b.hosting b.routes k
  where
    by_hosting :
        (o : Option HostingRef) (rts : List Route)
        → All RouteOk rts
        → Upstream (elim o [
          | none ↦ upstream
          | some ref ↦ elim rts [ [] ↦ upstream | rt ∷ rest ↦ rt.upstream ]
        ])
    by_hosting none rts k = h
    by_hosting (some ref) [] k = h
    by_hosting (some ref) (rt ∷ rest) k = k.0.upstream_ok

-- A service that was acceptable to the validation at a start is so after the form of the
-- administration has changed it, whatever the form's rules, paths and lists say: the form's checks of
-- the upstream, the host and the networks are enough.
pub edit_fields-BackendOk :
    (net : NetLib) (is_v4 : net.Ip → Bool) (r : Request) (upload : Upload) (upstream : String)
    (ips : List String) (b : Backend)
    → BackendOk net b
    → validate_upstream upstream ≡ none
    → (form_value r "host" == "") ≡ false
    → normalize_cidrs net is_v4 (form_value r "ip_allow") ≡ inl ips
    → BackendOk net (edit_fields r ips upload upstream b)
unfolding edit_fields rule_or_authorized
edit_fields-BackendOk net is_v4 r upload upstream ips b old valid host networks =
    let u =
      Upstream-Kept b upstream
        (validate_upstream_port-Upstream upstream ((validate_upstream_iff upstream).0 valid))
        old.routes_ok in
    record {
      id_given = old.id_given;
      host_given = false→ne (form_value r "host") "" host;
      routes_ok = (
        record {
          rule_known =
              or_rule-In (canonical_rule (form_value r "rule")) rule_authorized
                (inr (inr (inl refl)));
          upstream_ok = u;
        },
        routes-Ok _ _ u (overrides-RuleKnown r 0 (form_list r "opath")),
      );
      networks_ok = (normalize_cidrs-Cidr net is_v4 (form_value r "ip_allow") ips networks).0;
    }
