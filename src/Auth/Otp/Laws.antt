-- ===== src/Auth/Otp/Laws.antt =====
-- auth/otp.go: what Issue and Verify do.
use xal_tor_ka.Base.{
  ℕ, ◌≤◌, ◌<◌, String, code, ◌≡◌, refl, sym, ap, ◌∙◌, ◌≢◌, ◌⊎◌, inl, inr, Bool, true, false, Option,
  none, some, List, arith, ◌==◌, eq_iff, eq_refl, ltb, if◌then◌else◌, lt→ltb, ltb→le, Bool-cases,
  Option-cases, lookup, insert, delete, lookup-insert_self, lookup-delete,
}
use xal_tor_ka.Auth.Otp.{
  OtpEntry, OtpStore, refused, issued, panicked, must_wait, random_digits, hash_code, entry_for,
  store_code, issue, check_entry, verify,
}

module _ (digest : String → String) where
  -- Verify accepts a code exactly if an entry for the address is there, is not out of date, and has
  -- the code's hash; it then takes the entry away, and in every other case changes nothing.
  pub verify_lem :
      (now : ℕ) (email code : String) (s : OtpStore)
      → ((e : OtpEntry) × (lookup email s.codes ≡ some e)
          × (now ≤ e.expires)
          × (e.hash ≡ hash_code digest code)
          × (verify digest now email code s ≡ (true, record s { codes = delete email s.codes })))
        ⊎ ((verify digest now email code s ≡ (false, s))
            × ((e : OtpEntry)
                → lookup email s.codes ≡ some e
                → now ≤ e.expires
                → e.hash ≢ hash_code digest code))
  unfolding verify check_entry
  verify_lem now email code s = elim (Option-cases (lookup email s.codes)) [
    | inl e ↦ inr (rw (e, verify), (λ f q. cc))
    | inr (e, q) ↦ elim (Bool-cases (ltb e.expires now)) [
      | inl late ↦
          inr (rw (q, verify) (rw late), (λ f k w. absurd (late_entry e f late (sym q ∙ k) w)))
      | inr timely ↦ elim (Bool-cases (e.hash == hash_code digest code)) [
        | inl same ↦ inl (
          e,
          q,
          ltb→le _ _ timely,
          (eq_iff e.hash (hash_code digest code)).0 same,
          rw (q, verify) (rw (timely, same) refl),
        )
        | inr other ↦ inr (
          rw (q, verify) (rw (timely, other) refl),
          (λ f k w same. wrong_entry e f other (sym q ∙ k) same),
        )
      ]
    ]
  ]
    where
      late_entry :
          (e f : OtpEntry) → ltb e.expires now ≡ true → some e ≡ some f → now ≤ f.expires → ⊥
      late_entry e f late q w = ground arith

      wrong_entry :
          (e f : OtpEntry)
          → (e.hash == hash_code digest code) ≡ false
          → some e ≡ some f
          → f.hash ≡ hash_code digest code
          → ⊥
      wrong_entry e f other q same = ground (arith, eq_iff e.hash (hash_code digest code))

  -- Issue is refused while the cooling time of the last code runs, and then changes nothing.
  -- Otherwise the new code takes the place of any older one of the address, and no other entry
  -- changes; where the marker for a failing source would not fit, the call panics unchanged.
  pub issue_lem :
      (now : ℕ) (draws : List (Option ℕ)) (email : String) (s : OtpStore)
      → ((must_wait s now (lookup email s.codes) ≡ true)
          × (issue digest now draws email s ≡ (refused, s)))
        ⊎ ((must_wait s now (lookup email s.codes) ≡ false)
            × (random_digits s.length draws ≡ none)
            × (issue digest now draws email s ≡ (panicked, s)))
        ⊎ ((c : String) × (must_wait s now (lookup email s.codes) ≡ false)
            × (random_digits s.length draws ≡ some c)
            × (issue digest now draws email s
                ≡ (issued c, record s { codes = insert email (entry_for digest s now c) s.codes })))
  unfolding issue store_code
  issue_lem now draws email s = elim (Bool-cases (must_wait s now (lookup email s.codes))) [
    | inl e ↦ inl (e, rw e)
    | inr e ↦ elim (Option-cases (random_digits s.length draws)) [
      | inl q ↦ inr (inl (e, q, rw (e, q) refl))
      | inr (c, q) ↦ inr (inr (c, e, q, rw (e, q) refl))
    ]
  ]

  verify_hit :
      (now : ℕ) (email code : String) (s : OtpStore) (e : OtpEntry)
      → lookup email s.codes ≡ some e
      → now ≤ e.expires
      → e.hash ≡ hash_code digest code
      → verify digest now email code s ≡ (true, record s { codes = delete email s.codes })
  verify_hit now email code s e q w h = elim (verify_lem now email code s) [
    | inl (f, _, _, _, k) ↦ k
    | inr (_, no_fit) ↦ absurd (no_fit e q w h)
  ]

  pub verify_missing :
      (now : ℕ) (email code : String) (s : OtpStore)
      → lookup email s.codes ≡ none
      → verify digest now email code s ≡ (false, s)
  unfolding verify
  verify_missing now email code s e = rw (e, verify)

  pub lookup-issue :
      (now : ℕ) (draws : List (Option ℕ)) (email c : String) (s : OtpStore)
      → (issue digest now draws email s).0 ≡ issued c
      → lookup email (issue digest now draws email s).1.codes ≡ some (entry_for digest s now c)
  lookup-issue now draws email c s h = elim (issue_lem now draws email s) [
    | inl (_, k) ↦ cc (ap (λ r. r.0) k)
    | inr (inl (_, _, k)) ↦ cc (ap (λ r. r.0) k)
    | inr (inr (d, _, _, k)) ↦
        ap (λ r. lookup email r.1.codes) k
        ∙ lookup-insert_self email (entry_for digest s now d) s.codes
        ∙ ap (λ x. some (entry_for digest s now x)) (issued_inj (sym (ap (λ r. r.0) k) ∙ h))
  ]
    where
      issued_inj : {a b : String} → issued a ≡ issued b → a ≡ b
      issued_inj q = ground arith

  -- A code that Issue returned is accepted at every instant up to its end, once: a second check,
  -- with any code and at any time, is refused.
  pub issue-verify :
      (now later after : ℕ) (draws : List (Option ℕ)) (email c other : String) (s : OtpStore)
      → (issue digest now draws email s).0 ≡ issued c
      → later ≤ (entry_for digest s now c).expires
      → let s' = (issue digest now draws email s).1 in
        let r = verify digest later email c s' in
        (r.0 ≡ true) × ((verify digest after email other r.1).0 ≡ false)
  unfolding entry_for
  issue-verify now later after draws email c other s h w =
      let s' = (issue digest now draws email s).1 in
      let q = lookup-issue now draws email c s h in
      let k = verify_hit later email c s' (entry_for digest s now c) q w refl in
      let gone =
        lookup-delete email email s'.codes
        ∙ ap (λ b. if b then none else lookup email s'.codes) (eq_refl email) in
      (
        ap (λ r. r.0) k,
        ap (λ (r : Bool × OtpStore). (verify digest after email other r.1).0) k
            ∙ ap (λ (r : Bool × OtpStore). r.0)
                (verify_missing after email other (record s' { codes = delete email s'.codes })
                  gone),
      )

  -- After its end a code is worth nothing, whatever its text.
  pub verify_late :
      (now : ℕ) (email code : String) (s : OtpStore) (e : OtpEntry)
      → lookup email s.codes ≡ some e
      → e.expires < now
      → verify digest now email code s ≡ (false, s)
  unfolding verify check_entry
  verify_late now email code s e q w = rw (q, verify) (rw (lt→ltb e.expires now w) refl)
