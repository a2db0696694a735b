-- ===== src/Handlers/Admin/Users/Laws.antt =====
-- handlers/admin.go: the edits of users.json as the steps of a relation; the addresses stay apart.
use xal_tor_ka.Base.{
  String, ◌≡◌, refl, sym, ◌∙◌, ◌⊎◌, inl, inr, Bool, true, false, not, ◌&&◌, Option, none, some,
  List, [], ◌∷◌, map, arith, ◌==◌, eq_iff, if◌then◌else◌, Bool-cases, some_eq, any, In, Distinct,
  Distinct-last, keys-append, Sub-Distinct, keep-Sub,
}
use xal_tor_ka.Models.Identity.{User}
use mathlib.Core.Path.{subst}
use xal_tor_ka.Handlers.Admin.{Edited, edited}
use xal_tor_ka.Handlers.Admin.Saved.{
  edited_eq, found_eq, unless_refused, unless_stopped, changed_to,
}
use xal_tor_ka.Handlers.Admin.Users.{
  change_first, change_user, has_email, add_user, del_user, rename_user, change_last, flip_admin,
  toggle_admin,
}
use xal_tor_ka.Handlers.Admin.Users.Admins.{flip, flip-cases}

abbrev pub emails : List User → List String
emails us = map (λ u. u.email) us

-- The functions that the handlers give to mutateUsers; `sets` stands for the grants, the second
-- factor and the password, which keep the address. The form of a service also writes grants for all users at
-- once (Grants), which keeps it too.
pub data UserEdit : (List User → Edited (List User)) → Type 0 where
  adds : (u : User) → UserEdit (add_user u)
  dels : (email : String) → UserEdit (del_user email)
  sets :
      (email : String) (f : User → User)
      → ((u : User) → (f u).email ≡ u.email)
      → UserEdit (change_user email f)
  renames : (old neu : String) → UserEdit (rename_user old neu)
  toggles : (email : String) → UserEdit (toggle_admin email)

key→any :
    (email : String) (us : List User) → In email (emails us) → any (λ u. u.email == email) us ≡ true
key→any email [] i = elim i [ ]
key→any email (u ∷ us) (inl e) = ground (arith, eq_iff u.email email)
key→any email (u ∷ us) (inr i) = ground (arith, key→any email us i)

change_first-emails :
    (email : String) (f : User → User) (us vs : List User)
    → ((u : User) → (f u).email ≡ u.email)
    → change_first email f us ≡ some vs
    → emails vs ≡ emails us
unfolding change_first
change_first-emails email f [] vs same h = cc
change_first-emails email f (u ∷ us) vs same h =
    found_eq (λ v. v.email) (u.email == email) u (f u) us vs (change_first email f us) h
      (λ _. same u) (λ zs. change_first-emails email f us zs same)

flip-emails :
    (email : String) (us vs : List User)
    → change_last email flip us ≡ some vs
    → emails vs ≡ emails us
unfolding change_last flip
flip-emails email [] vs h = cc
flip-emails email (u ∷ us) vs h = by_rest (change_last email flip us) (flip-emails email us) h
  where
    by_rest :
        (o : Option (List User))
        → ((ws : List User) → o ≡ some ws → emails ws ≡ emails us)
        → (elim o [
          | some ws ↦ some (u ∷ ws)
          | none ↦ if u.email == email then some (flip u ∷ us) else none
        ])
          ≡ some vs
        → emails vs ≡ emails (u ∷ us)
    by_rest (some ws) k q = rw (sym (some_eq q)) (rw (k ws refl) refl)
    by_rest none k q = elim (Bool-cases (u.email == email)) [
      | inl e ↦ rw (sym (some_eq (rw e at q))) refl
      | inr e ↦ absurd (cc (rw e at q))
    ]

-- A change of the first address to one that is not in the list.
renamed :
    (old neu : String) (us vs : List User)
    → ¬ In neu (emails us)
    → change_first old (λ u. record u { email = neu }) us ≡ some vs
    → Distinct (emails us)
    → Distinct (emails vs) × ((x : String) → In x (emails vs) → (x ≡ neu) ⊎ In x (emails us))
unfolding change_first
renamed old neu [] vs new h d = cc
renamed old neu (u ∷ us) vs new h (fresh, d) =
    by_test (u.email == old) (change_first old (λ u. record u { email = neu }) us)
      (λ ws q. renamed old neu us ws (λ i. new (inr i)) q d) h
  where
    by_test :
        (b : Bool) (o : Option (List User))
        → ((ws : List User)
            → o ≡ some ws
            → Distinct (emails ws)
              × ((x : String) → In x (emails ws) → (x ≡ neu) ⊎ In x (emails us)))
        → (if b
            then some (record u { email = neu } ∷ us)
            else elim o [ none ↦ none | some ws ↦ some (u ∷ ws) ])
          ≡ some vs
        → Distinct (emails vs)
          × ((x : String) → In x (emails vs) → (x ≡ neu) ⊎ In x (emails (u ∷ us)))
    by_test true o k q =
        subst
          (λ l.
            Distinct (emails l)
            × ((x : String) → In x (emails l) → (x ≡ neu) ⊎ In x (emails (u ∷ us))))
          (some_eq q)
          (((λ i. new (inr i)), d), (λ x i. elim i [ inl e ↦ inl e | inr j ↦ inr (inr j) ]))
    by_test false none k q = cc
    by_test false (some ws) k q =
        let (e, among) = k ws refl in
        subst
          (λ l.
            Distinct (emails l)
            × ((x : String) → In x (emails l) → (x ≡ neu) ⊎ In x (emails (u ∷ us))))
          (some_eq q)
          (
            (
              (λ i. elim (among u.email i) [ inl same ↦ new (inl (sym same)) | inr j ↦ fresh j ]),
              e,
            ),
            (λ x i. elim i [
              | inl same ↦ inr (inl same)
              | inr j ↦ elim (among x j) [ inl same ↦ inl same | inr l ↦ inr (inr l) ]
            ]),
          )

same_address :
    (old neu : String) (us vs : List User)
    → neu ≡ old
    → change_first old (λ u. record u { email = neu }) us ≡ some vs
    → emails vs ≡ emails us
unfolding change_first
same_address old neu [] vs same h = cc
same_address old neu (u ∷ us) vs same h =
    found_eq (λ v. v.email) (u.email == old) u (record u { email = neu }) us vs
      (change_first old (λ u. record u { email = neu }) us) h
      (λ e. same ∙ sym ((eq_iff u.email old).0 e)) (λ zs. same_address old neu us zs same)

not_taken :
    (b : Bool) (neu : String) (us : List User)
    → b ≡ false
    → any (λ u. u.email == neu && not b) us ≡ false
    → any (λ u. u.email == neu) us ≡ false
not_taken b neu [] e h = refl
not_taken b neu (u ∷ us) e h = ground (arith, not_taken b neu us e)

renamed-Distinct :
    (old neu : String) (us vs : List User)
    → any (λ u. u.email == neu && not (neu == old)) us ≡ false
    → change_first old (λ u. record u { email = neu }) us ≡ some vs
    → Distinct (emails us)
    → Distinct (emails vs)
renamed-Distinct old neu us vs free q d = elim (Bool-cases (neu == old)) [
  | inl e ↦ rw (same_address old neu us vs ((eq_iff neu old).0 e) q) d
  | inr e ↦
      let not_in = not_taken (neu == old) neu us e free in
      (renamed old neu us vs (λ i. let k = key→any neu us i in ground arith) q d).0
]

-- The address of no user twice, for every edit of the users and every list.
pub user_edit-Distinct :
    (fn : List User → Edited (List User)) (us vs : List User)
    → UserEdit fn
    → Distinct (emails us)
    → fn us ≡ edited vs
    → Distinct (emails vs)
unfolding add_user has_email del_user change_user rename_user toggle_admin flip_admin flip
user_edit-Distinct fn us vs (adds u) d h =
    let (free, e) = unless_refused _ _ _ vs h in
    subst (λ l. Distinct (emails l)) e
      (rw (keys-append (λ v. v.email) us (u ∷ []))
        (Distinct-last u.email (emails us) (λ i. let q = key→any u.email us i in ground arith) d))
user_edit-Distinct fn us vs (dels email) d h =
    subst (λ l. Distinct (emails l)) (edited_eq h)
      (Sub-Distinct (keep-Sub (λ v. v.email) (λ u. not (u.email == email)) us) d)
user_edit-Distinct fn us vs (sets email f same) d h =
    let (ts, q, e) = changed_to _ _ _ vs h in
    subst (λ l. Distinct (emails l)) e (rw (change_first-emails email f us ts same q) d)
user_edit-Distinct fn us vs (renames old neu) d h =
    let (free, changed) = unless_stopped _ _ _ vs h in
    let (ts, q, e) = changed_to _ _ _ vs changed in
    subst (λ l. Distinct (emails l)) e (renamed-Distinct old neu us ts free q d)
user_edit-Distinct fn us vs (toggles email) d h = elim (flip-cases email us) [
  | inl (t, q) ↦ absurd (cc (rw (t, toggle_admin) at h))
  | inr (u, ws, t, q, k) ↦
      let (guard, e) = unless_refused _ _ ws vs (rw (t, q, toggle_admin, flip_admin) at h) in
      subst (λ l. Distinct (emails l)) e (rw (flip-emails email us ws q) d)
]
