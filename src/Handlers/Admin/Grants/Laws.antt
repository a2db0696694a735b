-- ===== src/Handlers/Admin/Grants/Laws.antt =====
-- handlers/admin.go: the grants of a user after the form of a service, and after one whose write
-- fails.
use xal_tor_ka.Base.{
  ℕ, zero, suc, String, ◌≡◌, refl, sym, ap, inl, inr, true, false, not, some, List, [], ◌∷◌, ◌++◌,
  map, arith, ◌==◌, eq_refl, Bool-cases, some_eq, length, take, drop, any, keep, In, In-append,
  ne→false, Dict, lookup,
}
use xal_tor_ka.Models.Identity.{User}
use mathlib.Core.Path.{subst}
use xal_tor_ka.Models.Grants.{grant_id}
use Prim.Native.String.{◌++◌ as str_append}
use xal_tor_ka.Auth.Directory.{get_user}
use xal_tor_ka.Handlers.Net.{Request, form_value, form_list}
use xal_tor_ka.Handlers.Reply.{failed_outside}
use xal_tor_ka.Handlers.Server.{Server}
use xal_tor_ka.Handlers.Admin.{Effects}
use xal_tor_ka.Handlers.Admin.Grants.{
  overwritten, with_grants, show_grants, mutate_grants, has_grant, without_grant, service_shown,
  apply_service_grants,
}

-- The form gives the user the grant: a path of it that names the user.
abbrev pub Named : String → Dict (List String) → User → String → Type 0
Named id grants u g =
    (path : String) × (emails : List String) × In (path, emails) grants
    × (any (λ email. email == u.email) emails ≡ true)
    × (g ≡ grant_id id path)

lookup-show :
    (f : User → User) (email : String) (m : Dict User) (u : User)
    → lookup email m ≡ some u
    → lookup email (map (λ k. (k.0, f k.1)) m) ≡ some (f u)
unfolding lookup
lookup-show f email [] u h = cc
lookup-show f email ((k, v) ∷ m) u h = elim (Bool-cases (k == email)) [
  | inl e ↦ rw e (ap (λ x. some (f x)) (some_eq (rw e at h)))
  | inr e ↦ rw e (lookup-show f email m u (rw e at h))
]

keep-all : (id : String) (xs : List String) → ¬ In id xs → keep (λ g. not (g == id)) xs ≡ xs
keep-all id [] h = refl
keep-all id (x ∷ xs) h =
    rw (ne→false x id (λ e. h (inl (sym e)))) (ap (λ l. x ∷ l) (keep-all id xs (λ i. h (inr i))))

In-take : {A : Type 0} (n : ℕ) (a : A) (xs : List A) → In a (take n xs) → In a xs
In-take zero a xs i = elim i [ ]
In-take (suc n) a [] i = elim i [ ]
In-take (suc n) a (x ∷ xs) (inl e) = inl e
In-take (suc n) a (x ∷ xs) (inr i) = inr (In-take n a xs i)

In-drop : {A : Type 0} (n : ℕ) (a : A) (xs : List A) → In a (drop n xs) → In a xs
In-drop zero a xs i = i
In-drop (suc n) a [] i = elim i [ ]
In-drop (suc n) a (x ∷ xs) i = inr (In-drop n a xs i)

dropped :
    (id x : String) (xs : List String)
    → In id (drop (length (x ∷ xs)) (id ∷ x ∷ xs))
    → In id (x ∷ xs)
dropped id x xs i = In-drop (length xs) id (x ∷ xs) i

front-revoked :
    (id x : String) (xs gs : List String)
    → gs ≡ id ∷ x ∷ xs
    → ¬ In id (x ∷ xs)
    → ¬ In id (overwritten (keep (λ g. not (g == id)) gs) gs)
unfolding overwritten
front-revoked id x xs gs h once =
    subst (λ l. ¬ In id (overwritten (keep (λ g. not (g == id)) l) l)) (sym h)
      (rw (eq_refl id, keep-all id (x ∷ xs) once) apart)
  where
    apart : ¬ In id (take (length (id ∷ x ∷ xs)) ((x ∷ xs) ++ drop (length (x ∷ xs)) (id ∷ x ∷ xs)))
    apart i =
        let left = drop (length (x ∷ xs)) (id ∷ x ∷ xs) in
        let j = In-take (length (id ∷ x ∷ xs)) id ((x ∷ xs) ++ left) i in
        elim (In-append id (x ∷ xs) left j) [ inl k ↦ once k | inr k ↦ once (dropped id x xs k) ]

held-front : (id x : String) (xs gs : List String) → gs ≡ id ∷ x ∷ xs → any (λ g. g == id) gs ≡ true
held-front id x xs gs h =
    subst (λ l. any (λ g. g == id) l ≡ true) (sym h) (ground (arith, eq_refl id))

shown-revoked :
    (enabled : List String) (id x : String) (xs : List String) (u : User)
    → any (λ email. email == u.email) enabled ≡ false
    → u.backends ≡ id ∷ x ∷ xs
    → ¬ In id (x ∷ xs)
    → ¬ In id (service_shown enabled id u)
unfolding service_shown has_grant without_grant
shown-revoked enabled id x xs u off held once =
    let has : any (λ g. g == id) u.backends ≡ true = held-front id x xs u.backends held in
    rw (off, has) (front-revoked id x xs u.backends held once)

-- A revocation whose write fails is in force all the same. The request is answered with an error and
-- users.json is as it was, but the directory no longer has the grant, for a user whose first grant
-- of several it is: the filter has overwritten the array that the directory shows.
pub failed_revocation :
    (e : Effects) (r : Request) (id x : String) (xs : List String) (s : Server) (u : User)
    → e.users_saved ≡ false
    → (form_value r "svcuser_sent" == "") ≡ false
    → any (λ email. email == u.email) (form_list r "svcuser") ≡ false
    → get_user s.users u.email ≡ some u
    → u.backends ≡ id ∷ x ∷ xs
    → ¬ In id (x ∷ xs)
    → ((apply_service_grants e r id s).0 ≡ some failed_outside)
      × ((apply_service_grants e r id s).1.users_file ≡ s.users_file)
      × ((v : User) × (get_user (apply_service_grants e r id s).1.users u.email ≡ some v)
          × (¬ In id v.backends))
unfolding apply_service_grants mutate_grants show_grants get_user with_grants
failed_revocation e r id x xs s u bad sent off known held once = (
  rw (sent, bad, apply_service_grants, mutate_grants) refl,
  rw (sent, bad, apply_service_grants, mutate_grants) refl,
  (
    with_grants (service_shown (form_list r "svcuser") id u) u,
    rw (sent, bad, apply_service_grants, mutate_grants, show_grants)
        (lookup-show (λ v. with_grants (service_shown (form_list r "svcuser") id v) v) u.email
          s.users.by_email u known),
    shown-revoked (form_list r "svcuser") id x xs u off held once,
  ),
)
