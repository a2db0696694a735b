-- ===== src/Handlers/Admin/Upstream/Laws.antt =====
-- handlers/admin.go and config/validate.go: the two checks of an upstream agree; the networks and
-- the upstreams that the administration writes are ones that a start accepts.
use xal_tor_ka.Base.{
  suc, String, ◌≡◌, refl, sym, ap, ◌↔◌, ◌⊎◌, inl, inr, Bool, true, false, Option, none, some, List,
  [], ◌∷◌, arith, ◌==◌, if◌then◌else◌, Bool-cases, Option-cases, length, All,
}
use xal_tor_ka.Config.Validate.{
  atoi, host_and_port, is_host_and_port, is_port, validate_upstream_port, is_cidr,
}
use xal_tor_ka.Handlers.Net.{NetLib, split_host_port}
use xal_tor_ka.Handlers.Admin.Upstream.{
  validate_upstream, port_error, normalize_cidrs, normalize_fields, as_network, fields_func,
  is_separator,
}

port_error_iff : (port : String) → (port_error port ≡ none) ↔ (is_port (atoi port) ≡ true)
unfolding port_error
port_error_iff port = by_test (is_port (atoi port))
  where
    by_test :
        (b : Bool)
        → let found : Option String = if b then none else some "invalid upstream port" in
          (found ≡ none) ↔ (b ≡ true)
    by_test true = ((λ h. refl), (λ h. refl))
    by_test false = ((λ h. cc), (λ h. cc))

-- The form of a service accepts an upstream exactly if the validation of the next start does.
pub validate_upstream_iff :
    (upstream : String)
    → (validate_upstream upstream ≡ none) ↔ (validate_upstream_port upstream ≡ true)
unfolding validate_upstream validate_upstream_port is_host_and_port
validate_upstream_iff upstream = elim (Option-cases (split_host_port (host_and_port upstream))) [
  | inl e ↦
      rw (e, validate_upstream, validate_upstream_port, is_host_and_port) ((λ h. cc), (λ h. cc))
  | inr ((host, port), e) ↦ elim (Bool-cases (host == "")) [
    | inl q ↦
        rw (e, q, validate_upstream, validate_upstream_port, is_host_and_port)
          ((λ h. cc), (λ h. cc))
    | inr q ↦
        rw (e, q, validate_upstream, validate_upstream_port, is_host_and_port) (port_error_iff port)
  ]
]

inl_eq : {A B : Type 0} {a b : A} → Path (A ⊎ B) (inl a) (inl b) → a ≡ b
inl_eq h = ground arith

module _ (net : NetLib) (is_v4 : net.Ip → Bool) where
  fields-Cidr :
      (fs cs : List String)
      → normalize_fields net is_v4 fs ≡ inl cs
      → All (λ c. is_cidr net c ≡ true) cs × (length cs ≡ length fs)
  unfolding normalize_fields is_cidr
  fields-Cidr [] cs h = rw (sym (inl_eq h)) (tt, refl)
  fields-Cidr (f ∷ fs) cs h =
      by_parse (net.parse_cidr (as_network net is_v4 f)) (normalize_fields net is_v4 fs) refl
        (λ ds. fields-Cidr fs ds) h
    where
      by_parse :
          (o : Option net.Cidr) (rest : List String ⊎ String)
          → net.parse_cidr (as_network net is_v4 f) ≡ o
          → ((ds : List String)
              → rest ≡ inl ds
              → All (λ c. is_cidr net c ≡ true) ds × (length ds ≡ length fs))
          → let behind : List String ⊎ String = elim rest [
            | inl ds ↦ inl (as_network net is_v4 f ∷ ds)
            | inr wrong ↦ inr wrong
          ] in
            let whole : List String ⊎ String = elim o [
              | none ↦ inr (as_network net is_v4 f)
              | some n ↦ behind
            ] in
            whole ≡ inl cs → All (λ c. is_cidr net c ≡ true) cs × (length cs ≡ suc (length fs))
      by_parse none rest e k q = cc
      by_parse (some n) (inr wrong) e k q = cc
      by_parse (some n) (inl ds) e k q =
          let (held, long) = k ds refl in rw (sym (inl_eq q)) ((rw e refl, held), ap suc long)

  -- Each token of a list of networks becomes one network that parses, or the list is refused.
  pub normalize_cidrs-Cidr :
      (raw : String) (cs : List String)
      → normalize_cidrs net is_v4 raw ≡ inl cs
      → All (λ c. is_cidr net c ≡ true) cs × (length cs ≡ length (fields_func is_separator raw))
  unfolding normalize_cidrs
  normalize_cidrs-Cidr raw cs h = fields-Cidr (fields_func is_separator raw) cs h
