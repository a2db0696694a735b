-- ===== src/Agent/Command/Laws.antt =====
-- agent/command.go: what the parameters of an accepted request satisfy.
use xal_tor_ka.Base.{
  ◌<◌, String, ◌≡◌, refl, sym, ◌≢◌, inl, inr, Bool, true, false, not, ◌&&◌, Option, none, some,
  List, [], ◌∷◌, map, arith, ◌==◌, eq_iff, ltb, lt→ltb, Bool-cases, Option-cases, length, any, In,
  any→In, ne→false, Dict, lookup, has_key, sort_texts, sort_texts-In,
}
use mathlib.Core.Path.{subst}
use xal_tor_ka.Agent.Command.{
  ParamSpec, Command, ParamError, undeclared, check_value, check_param, check_names,
  validate_params,
}

-- The value is in the set of the spec, if there is one, and matches its pattern, if there is one.
pub record Fits (full_match : String → String → Bool) (spec : ParamSpec) (v : String) : Type 0 where
  pub in_set : 0 < length spec.enum → In v spec.enum
  pub matches : spec.pattern ≢ "" → full_match spec.pattern v ≡ true

member : (v : String) (es : List String) → any (λ e. v == e) es ≡ true → In v es
member v es h =
    let (e, i, q) = any→In (λ e. v == e) es h in subst (λ x. In x es) (sym ((eq_iff v e).0 q)) i

module _ (full_match : String → String → Bool) where
  check_value-Fits :
      (n : String) (spec : ParamSpec) (v : String)
      → check_value full_match n spec v ≡ none
      → Fits full_match spec v
  unfolding check_value
  check_value-Fits n spec v h = elim (Bool-cases outside_set) [
    | inl e ↦ absurd (cc (rw (e, check_value) at h))
    | inr e ↦ elim (Bool-cases mismatch) [
      | inl k ↦ absurd (cc (rw (e, k, check_value) at h))
      | inr k ↦ record {
        in_set = (λ p. member v spec.enum (in_enum _ _ (lt→ltb 0 (length spec.enum) p) e));
        matches = (λ ne. in_enum _ _ (rw (ne→false spec.pattern "" ne) refl) k);
      }
    ]
  ]
    where
      outside_set : Bool
      outside_set = ltb 0 (length spec.enum) && not (any (λ e. v == e) spec.enum)

      mismatch : Bool
      mismatch = not (spec.pattern == "") && not (full_match spec.pattern v)

      in_enum : (a b : Bool) → a ≡ true → (a && not b) ≡ false → b ≡ true
      in_enum a b p q = ground arith

  undeclared-none :
      (specs : Dict ParamSpec) (params : Dict String) (k v : String)
      → undeclared specs params ≡ none
      → lookup k params ≡ some v
      → has_key k specs ≡ true
  unfolding undeclared lookup
  undeclared-none specs [] k v h q = cc
  undeclared-none specs ((j, w) ∷ params) k v h q = elim (Bool-cases (has_key j specs)) [
    | inr e ↦ absurd (cc (rw (e, undeclared) at h))
    | inl e ↦ elim (Bool-cases (j == k)) [
      | inl same ↦ subst (λ x. has_key x specs ≡ true) ((eq_iff j k).0 same) e
      | inr other ↦
          undeclared-none specs params k v (rw (e, undeclared) at h) (rw (other, lookup) at q)
    ]
  ]

  check_names-each :
      (specs : Dict ParamSpec) (params : Dict String) (ns : List String) (n : String)
      (spec : ParamSpec)
      → check_names full_match specs params ns ≡ none
      → In n ns
      → lookup n specs ≡ some spec
      → check_param full_match params n spec ≡ none
  unfolding check_names
  check_names-each specs params [] n spec h i q = elim i [ ]
  check_names-each specs params (m ∷ ns) n spec h i q =
      by_place i (both (found m) (check_names full_match specs params ns) h)
        (λ k j. check_names-each specs params ns n spec k j q)
    where
      found : String → Option ParamError
      found x = elim (lookup x specs) [ none ↦ none | some sp ↦ check_param full_match params x sp ]

      found_at : found n ≡ none → check_param full_match params n spec ≡ none
      found_at k = rw (q, found) at k

      both :
          (o rest : Option ParamError)
          → let whole : Option ParamError = elim o [ some wrong ↦ some wrong | none ↦ rest ] in
            whole ≡ none → (o ≡ none) × (rest ≡ none)
      both none rest k = (refl, k)
      both (some wrong) rest k = cc

      by_place :
          In n (m ∷ ns)
          → (found m ≡ none) × (check_names full_match specs params ns ≡ none)
          → (check_names full_match specs params ns ≡ none
              → In n ns
              → check_param full_match params n spec ≡ none)
          → check_param full_match params n spec ≡ none
      by_place (inr j) (f, k) again = again k j
      by_place (inl same) (f, k) again = found_at (subst (λ x. found x ≡ none) (sym same) f)

  key-listed :
      (specs : Dict ParamSpec) (n : String) (spec : ParamSpec)
      → lookup n specs ≡ some spec
      → In n (map (λ k. k.0) specs)
  unfolding lookup
  key-listed [] n spec h = cc
  key-listed ((k, s) ∷ specs) n spec h = elim (Bool-cases (k == n)) [
    | inl e ↦ inl (sym ((eq_iff k n).0 e))
    | inr e ↦ inr (key-listed specs n spec (rw (e, lookup) at h))
  ]

  -- What an accepted request satisfies: a value that is there is that of a declared parameter and
  -- fits it, and a required parameter is there.
  pub record Accepted (specs : Dict ParamSpec) (params : Dict String) : Type 0 where
    pub declared_fit :
        (k v : String)
        → lookup k params ≡ some v
        → (spec : ParamSpec) × (lookup k specs ≡ some spec) × Fits full_match spec v
    pub required_given :
        (k : String) (spec : ParamSpec)
        → lookup k specs ≡ some spec
        → spec.required ≡ true
        → (v : String) × (lookup k params ≡ some v)

  checked :
      (c : Command) (params : Dict String)
      → validate_params full_match c params ≡ none
      → (undeclared c.manifest.params params ≡ none)
        × (check_names full_match c.manifest.params params
              (sort_texts (map (λ k. k.0) c.manifest.params))
            ≡ none)
  unfolding validate_params
  checked c params h = elim (Option-cases (undeclared c.manifest.params params)) [
    | inl e ↦ (e, rw (e, validate_params) at h)
    | inr (k, e) ↦ absurd (cc (rw (e, validate_params) at h))
  ]

  pub validate_params-Accepted :
      (c : Command) (params : Dict String)
      → validate_params full_match c params ≡ none
      → Accepted c.manifest.params params
  unfolding check_param
  validate_params-Accepted c params h =
      let (declared, names) = checked c params h in
      let each : (n : String) (spec : ParamSpec)
          → lookup n c.manifest.params ≡ some spec
          → check_param full_match params n spec ≡ none =
        (λ n spec q.
          check_names-each c.manifest.params params _ n spec names
            ((sort_texts-In n _).1 (key-listed c.manifest.params n spec q)) q) in
      record {
        declared_fit = (λ k v q. elim (Option-cases (lookup k c.manifest.params)) [
          | inl e ↦
              let known = undeclared-none c.manifest.params params k v declared q in
              absurd (cc (rw e at known))
          | inr (spec, e) ↦
              (spec, e, check_value-Fits k spec v (rw (q, check_param) at (each k spec e)))
        ]);
        required_given = (λ k spec q must. elim (Option-cases (lookup k params)) [
          | inr (v, e) ↦ (v, e)
          | inl e ↦ absurd (cc (rw (e, must, check_param) at (each k spec q)))
        ]);
      }
