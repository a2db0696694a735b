-- ===== src/Proxy/Group/Laws.antt =====
-- proxy/generate.go, orderGroup: the order keeps the backends and puts the owner of the root first.
use xal_tor_ka.Base.{
  ℕ, ◌≡◌, refl, sym, ap, ◌∙◌, ◌⊎◌, inl, inr, Bool, true, false, none, some, List, [], ◌∷◌, arith,
  ltb, Bool-cases, length, any, keep,
}
use xal_tor_ka.Models.Services.{Backend}
use xal_tor_ka.Proxy.Group.{insert_by_id, sort_by_id, owns_root, swap_root, bring_root, order_group}

-- how many backends satisfy the test
abbrev pub count : (Backend → Bool) → List Backend → ℕ
count p bs = length (keep p bs)

insert-count :
    (p : Backend → Bool) (be : Backend) (bs : List Backend)
    → count p (insert_by_id be bs) ≡ count p (be ∷ bs)
unfolding insert_by_id
insert-count p be [] = refl
insert-count p be (b ∷ bs) = let rest = insert-count p be bs in ground arith

sort-count : (p : Backend → Bool) (bs : List Backend) → count p (sort_by_id bs) ≡ count p bs
unfolding sort_by_id
sort-count p [] = refl
sort-count p (b ∷ bs) =
    let rest = sort-count p bs in let step = insert-count p b (sort_by_id bs) in ground arith

-- What swap_root finds owns the root, and nobody is lost.
record Swapped (p : Backend → Bool) (first : Backend) (bs : List Backend) (root : Backend)
    (others : List Backend) : Type 0 where
  owner : owns_root root ≡ true
  same : count p (root ∷ others) ≡ count p (first ∷ bs)

swap_root-Swapped :
    (p : Backend → Bool) (first : Backend) (bs : List Backend)
    → ((swap_root first bs ≡ none) × (any owns_root bs ≡ false))
      ⊎ ((root : Backend) × (others : List Backend) × (swap_root first bs ≡ some (root, others))
          × Swapped p first bs root others)
unfolding swap_root
swap_root-Swapped p first [] = inl (refl, refl)
swap_root-Swapped p first (b ∷ bs) = elim (Bool-cases (owns_root b)) [
  | inl e ↦ inr (b, first ∷ bs, rw e refl, record { owner = e; same = ground arith })
  | inr e ↦ elim (swap_root-Swapped p first bs) [
    | inl (q, none_owns) ↦ inl (rw (e, q, swap_root) refl, rw e none_owns)
    | inr (root, others, q, w) ↦ inr (
      root,
      b ∷ others,
      rw (e, q, swap_root) refl,
      record { owner = w.owner; same = let k = w.same in ground arith },
    )
  ]
]

any-count : (p : Backend → Bool) (bs : List Backend) → any p bs ≡ ltb 0 (count p bs)
any-count p [] = refl
any-count p (b ∷ bs) = let rest = any-count p bs in ground arith

bring_root-count : (p : Backend → Bool) (bs : List Backend) → count p (bring_root bs) ≡ count p bs
unfolding bring_root
bring_root-count p [] = refl
bring_root-count p (b ∷ bs) = elim (Bool-cases (owns_root b)) [
  | inl e ↦ rw e refl
  | inr e ↦ elim (swap_root-Swapped p b bs) [
    | inl (q, _) ↦ rw (e, q, bring_root) refl
    | inr (root, others, q, w) ↦ rw (e, q, bring_root) w.same
  ]
]

bring_root-owner :
    (bs : List Backend)
    → any owns_root bs ≡ true
    → (root : Backend) × (others : List Backend) × (bring_root bs ≡ root ∷ others)
      × (owns_root root ≡ true)
unfolding bring_root
bring_root-owner [] h = cc
bring_root-owner (b ∷ bs) h = elim (Bool-cases (owns_root b)) [
  | inl e ↦ (b, bs, rw e refl, e)
  | inr e ↦ elim (swap_root-Swapped owns_root b bs) [
    | inl (q, no_owner) ↦ absurd (cc (rw (e, no_owner) at h))
    | inr (root, others, q, w) ↦ (root, others, rw (e, q, bring_root) refl, w.owner)
  ]
]

-- The order of a host's backends loses and repeats none of them, and where one of them owns the
-- root path the first of the order does.
pub order_group_lem :
    (grp : List Backend)
    → ((p : Backend → Bool) → count p (order_group grp) ≡ count p grp)
      × (any owns_root grp ≡ true
          → (root : Backend) × (others : List Backend) × (order_group grp ≡ root ∷ others)
            × (owns_root root ≡ true))
unfolding order_group
order_group_lem grp = (
  (λ p. bring_root-count p (sort_by_id grp) ∙ sort-count p grp),
  (λ h. bring_root-owner (sort_by_id grp) (
      any-count owns_root (sort_by_id grp)
      ∙ ap (ltb 0) (sort-count owns_root grp)
      ∙ sym (any-count owns_root grp)
      ∙ h)),
)
