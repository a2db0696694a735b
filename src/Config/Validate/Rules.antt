-- ===== src/Config/Validate/Rules.antt =====
-- config/validate.go: what each entry of a configuration that passes Validate satisfies,
-- and the steps of a chain of checks.
use xal_tor_ka.Base.{
  ℕ, ◌≤◌, String, ◌≡◌, refl, ◌≢◌, ◌⊎◌, inl, inr, Bool, true, false, not, ◌&&◌, ◌||◌, some, List,
  arith, ◌==◌, eq_iff, eq_refl, or→either, any, In, All, any→In, In→any, trim_space, false→ne, pos,
}
use xal_tor_ka.Models.Services.{ProviderCfg, Route, Backend, Link, Monitor}
use xal_tor_ka.Models.Identity.{User}
use mathlib.Core.Path.{subst}
use xal_tor_ka.Handlers.Net.{NetLib, split_host_port}
use xal_tor_ka.Config.Validate.{
  Fault, Checked, bad, good, ◌>>=◌, ◌>>◌, need, valid_rules, is_one_of, host_and_port, atoi,
  is_known, is_cidr,
}

-- The text names a host and a port between 1 and 65535.
abbrev pub Upstream : String → Type 0
Upstream u =
    (host : String) × (port : String) × (n : ℕ) × (split_host_port (host_and_port u)
      ≡ some (host, port))
    × (host ≢ "")
    × (atoi port ≡ some (pos n))
    × (1 ≤ n)
    × (n ≤ 65535)

pub record RouteOk (r : Route) : Type 0 where
  pub rule_known : In r.rule valid_rules
  pub upstream_ok : Upstream r.upstream

pub record ProviderOk (p : ProviderCfg) : Type 0 where
  pub id_given : p.id ≢ ""
  pub type_known : (p.type ≡ "oidc") ⊎ (p.type ≡ "local")
  pub issuer_given : p.enabled ≡ true → p.type ≡ "oidc" → trim_space p.issuer ≢ ""
  pub client_given : p.enabled ≡ true → p.type ≡ "oidc" → trim_space p.client_id ≢ ""

pub record BackendOk (net : NetLib) (be : Backend) : Type 0 where
  pub id_given : be.id ≢ ""
  pub host_given : be.host ≢ ""
  pub routes_ok : All RouteOk be.routes
  pub networks_ok : All (λ c. is_cidr net c ≡ true) be.ip_allow

pub record LinkOk (l : Link) : Type 0 where
  pub id_given : l.id ≢ ""
  pub url_given : l.url ≢ ""

pub record MonitorOk (m : Monitor) : Type 0 where
  pub id_given : m.id ≢ ""
  pub url_given : m.url ≢ ""

pub record UserOk (provider_ids ids : List String) (u : User) : Type 0 where
  pub email_given : u.email ≢ ""
  pub provider_known : In u.provider provider_ids
  pub password_given : u.provider ≡ "local" → u.password_hash ≢ ""
  pub grants_known : All (λ b. In b ids) u.backends

pub need-then :
    {B : Type 0} (c : Bool) (f : Fault) (k : Checked B) (b : B)
    → (need c f >> k) ≡ good b
    → (c ≡ true) × (k ≡ good b)
unfolding need
need-then true f k b h = (refl, h)
need-then false f k b h = cc

pub then-good :
    {B : Type 0} (m : Checked Unit) (k : Checked B) (b : B)
    → (m >> k) ≡ good b
    → (m ≡ good tt) × (k ≡ good b)
then-good (bad f) k b h = cc
then-good (good tt) k b h = (refl, h)

pub bind-good :
    {A B : Type 0} (m : Checked A) (k : A → Checked B) (b : B)
    → (m >>= k) ≡ good b
    → (a : A) × (m ≡ good a) × (k a ≡ good b)
bind-good (bad f) k b h = cc
bind-good (good a) k b h = (a, refl, h)

pub not-empty : (s : String) → not (s == "") ≡ true → s ≢ ""
not-empty s h = false→ne s "" (ground arith)

pub one_of-In : (names : List String) (s : String) → is_one_of names s ≡ true → In s names
one_of-In names s h =
    let (n, i, e) = any→In (λ n. n == s) names h in subst (λ x. In x names) ((eq_iff n s).0 e) i

pub unknown→new : (ids : List String) (id : String) → not (is_known ids id) ≡ true → ¬ In id ids
unfolding is_known
unknown→new ids id h i =
    let k : any (λ x. x == id) ids ≡ true = In→any (λ x. x == id) id ids i (eq_refl id) in
    ground arith

pub known→In : (ids : List String) (id : String) → is_known ids id ≡ true → In id ids
unfolding is_known
known→In ids id h = one_of-In ids id h

pub unless-both : (a : Bool) (s : String) → not (a && s == "") ≡ true → a ≡ true → s ≢ ""
unless-both a s h e = false→ne s "" (ground arith)

pub unless-three :
    (a b : Bool) (s : String) → not (a && b && s == "") ≡ true → a ≡ true → b ≡ true → s ≢ ""
unless-three a b s h e k = false→ne s "" (ground arith)

pub good_eq : {A : Type 0} {a b : A} → good a ≡ good b → a ≡ b
good_eq h = ground arith

pub either-type : (t s1 s2 : String) → (t == s1 || t == s2) ≡ true → (t ≡ s1) ⊎ (t ≡ s2)
either-type t s1 s2 h = elim (or→either (t == s1) (t == s2) h) [
  | inl e ↦ inl ((eq_iff t s1).0 e)
  | inr e ↦ inr ((eq_iff t s2).0 e)
]
