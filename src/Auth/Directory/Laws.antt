-- ===== src/Auth/Directory/Laws.antt =====
-- auth/directory.go: what a directory holds after Replace.
use xal_tor_ka.Base.{
  suc, String, ◌≡◌, refl, sym, ap, ◌∙◌, inl, inr, false, Option, none, some, List, [], ◌∷◌, map,
  arith, ◌==◌, eq_iff, if◌then◌else◌, Bool-cases, length, Dict, lookup, insert, lookup-insert,
}
use xal_tor_ka.Models.Identity.{User}
use xal_tor_ka.Auth.Directory.{
  UserDirectory, index_users, replace, get_user, all_users, count_users,
}

-- The last user of the list with the address.
unfoldable pub last_with : String → List User → Option User
last_with email [] = none
last_with email (u ∷ us) = elim (last_with email us) [
  | some v ↦ some v
  | none ↦ if u.email == email then some u else none
]

lookup-index_users :
    (email : String) (m : Dict User) (us : List User)
    → lookup email (index_users m us)
      ≡ elim (last_with email us) [ some v ↦ some v | none ↦ lookup email m ]
unfolding index_users last_with
lookup-index_users email m [] = refl
lookup-index_users email m (u ∷ us) =
    ground
      (arith, lookup-index_users email (insert u.email u m) us, lookup-insert u.email email u m)

-- No address stands twice, and each user stands under the own address.
abbrev pub Fresh : String → Dict User → Type 0
Fresh email m = lookup email m ≡ none

abbrev pub Indexed : Dict User → Type 0
Indexed [] = Unit
Indexed ((k, u) ∷ m) = (u.email ≡ k) × Fresh k m × Indexed m

insert-Fresh :
    (k email : String) (u : User) (m : Dict User)
    → Fresh k m
    → (email == k) ≡ false
    → Fresh k (insert email u m)
insert-Fresh k email u m h ne = lookup-insert email k u m ∙ rw ne h

insert-Indexed : (u : User) (m : Dict User) → Indexed m → Indexed (insert u.email u m)
unfolding insert lookup
insert-Indexed u [] h = (refl, refl, tt)
insert-Indexed u ((k, v) ∷ m) (e, f, h) = elim (Bool-cases (k == u.email)) [
  | inl q ↦ rw q (refl, rw (← (eq_iff k u.email).0 q) f, h)
  | inr q ↦ rw q (
    e,
    insert-Fresh k u.email u m f (ground (arith, eq_iff k u.email, eq_iff u.email k)),
    insert-Indexed u m h,
  )
]

index_users-Indexed : (m : Dict User) (us : List User) → Indexed m → Indexed (index_users m us)
unfolding index_users
index_users-Indexed m [] h = h
index_users-Indexed m (u ∷ us) h =
    index_users-Indexed (insert u.email u m) us (insert-Indexed u m h)

same : (o : Option User) → (elim o [ some v ↦ some v | none ↦ none ]) ≡ o
same none = refl
same (some v) = refl

length-map : (m : Dict User) → length (map (λ (e : String × User). e.1) m) ≡ length m
length-map [] = refl
length-map (e ∷ m) = ap suc (length-map m)

-- After Replace, Get finds the last user of the list with the address and nobody else; All has each
-- address once, and Count is its length.
pub replace_lem :
    (d : UserDirectory) (us : List User) (email : String)
    → (get_user (replace d us) email ≡ last_with email us)
      × Indexed (replace d us).by_email
      × (count_users (replace d us) ≡ length (all_users (replace d us)))
unfolding get_user replace count_users all_users lookup
replace_lem d us email = (
  lookup-index_users email [] us ∙ same (last_with email us),
  index_users-Indexed [] us tt,
  sym (length-map (replace d us).by_email),
)
