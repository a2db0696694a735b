-- ===== src/Handlers/Admin/Users/Admins.antt =====
-- handlers/admin.go, handleUserAdmin: the switch of the administrator's flag leaves an administrator.
use xal_tor_ka.Base.{
  ℕ, suc, ◌≤◌, String, ◌≡◌, refl, ap, ◌⊎◌, inl, inr, Bool, true, false, not, ◌&&◌, none, some, List,
  [], ◌∷◌, arith, ◌==◌, leb, if◌then◌else◌, Bool-cases, length, keep,
}
use xal_tor_ka.Models.Identity.{User}
use mathlib.Core.Path.{subst}
use xal_tor_ka.Handlers.Admin.{edited}
use xal_tor_ka.Handlers.Admin.Saved.{unless_refused}
use xal_tor_ka.Handlers.Admin.Users.{count_admins, change_last, target, flip_admin, toggle_admin}

-- the flag before, and the numbers of administrators before and after the switch
abbrev pub Counted : Bool → ℕ → ℕ → Type 0
Counted true n m = suc m ≡ n
Counted false n m = m ≡ suc n

unfoldable pub flip : User → User
flip u = record u { admin = not u.admin }

switch-Counted :
    (u : User) (us : List User)
    → Counted u.admin (count_admins (u ∷ us)) (count_admins (flip u ∷ us))
unfolding count_admins flip
switch-Counted u us = by_flag u.admin
  where
    by_flag :
        (b : Bool)
        → Counted b
            (length (if b then u ∷ keep (λ v. v.admin) us else keep (λ v. v.admin) us))
            (length (if not b then flip u ∷ keep (λ v. v.admin) us else keep (λ v. v.admin) us))
    by_flag true = refl
    by_flag false = refl

behind-Counted :
    (b : Bool) (u : User) (us vs : List User)
    → Counted b (count_admins us) (count_admins vs)
    → Counted b (count_admins (u ∷ us)) (count_admins (u ∷ vs))
unfolding count_admins
behind-Counted b u us vs h = elim (Bool-cases u.admin) [
  | inl e ↦ rw e (step _ _ b h)
  | inr e ↦ rw e h
]
  where
    step : (n m : ℕ) (b : Bool) → Counted b n m → Counted b (suc n) (suc m)
    step n m true h = ap suc h
    step n m false h = ap suc h

pub flip-cases :
    (email : String) (us : List User)
    → ((target email us ≡ none) × (change_last email flip us ≡ none))
      ⊎ ((u : User) × (vs : List User) × (target email us ≡ some u)
          × (change_last email flip us ≡ some vs)
          × Counted u.admin (count_admins us) (count_admins vs))
unfolding target change_last
flip-cases email [] = inl (refl, refl)
flip-cases email (u ∷ us) = elim (flip-cases email us) [
  | inr (v, vs, t, q, k) ↦
      inr
        (v, u ∷ vs, rw (t, target) refl, rw (q, change_last) refl, behind-Counted v.admin u us vs k)
  | inl (t, q) ↦ elim (Bool-cases (u.email == email)) [
    | inr e ↦ inl (rw (t, e, target) refl, rw (q, e, change_last) refl)
    | inl e ↦
        inr
          (u, flip u ∷ us, rw (t, e, target) refl, rw (q, e, change_last) refl, switch-Counted u us)
  ]
]

left_over : (b : Bool) (n m : ℕ) → Counted b n m → (b && leb n 1) ≡ false → 1 ≤ m
left_over true n m h k = ground (arith, h)
left_over false n m h k = ground (arith, h)

-- The switch of a user's flag, where it is made, leaves at least one administrator.
pub toggle_admin_lem :
    (email : String) (us vs : List User) → toggle_admin email us ≡ edited vs → 1 ≤ count_admins vs
unfolding toggle_admin flip_admin flip
toggle_admin_lem email us vs h = elim (flip-cases email us) [
  | inl (t, q) ↦ absurd (cc (rw (t, toggle_admin) at h))
  | inr (u, ws, t, q, k) ↦
      let (guard, e) = unless_refused _ _ ws vs (rw (t, q, toggle_admin, flip_admin) at h) in
      subst (λ x. 1 ≤ count_admins x) e
        (left_over u.admin (count_admins us) (count_admins ws) k guard)
]
