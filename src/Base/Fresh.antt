-- ===== src/Base/Fresh.antt =====
-- Texts that are collected in a set: each is new where it is added.
use Prim.Native.String.{String}
use mathlib.Core.Path.{◌≡◌, refl, sym, ap, ◌∙◌}
use mathlib.Core.Logic.{◌⊎◌, inl, inr}
use mathlib.Core.List.{List, [], ◌∷◌, ◌++◌, map, append-nil}
use xal_tor_ka.Base.Lists.{In, In-append, In-append_left, In-append_right, keep}
use mathlib.Core.Path.{subst}
use mathlib.Core.Bool.{Bool, true, not, ◌&&◌}
use text.Mathlib.Text.{◌==◌}
use xal_tor_ka.Base.Tests.{Bool-cases, and→both}
use xal_tor_ka.Base.Lists.{any, all, In→any}
use text.Mathlib.TextEquality.{eq_iff}

-- `after` is `before` with the names, each of them new where it is added.
abbrev pub Adds : List String → List String → List String → Type 0
Adds [] before after = before ≡ after
Adds (n ∷ ns) before after = (¬ In n before) × Adds ns (n ∷ before) after

-- No text stands twice in the list.
abbrev pub Distinct : List String → Type 0
Distinct [] = Unit
Distinct (n ∷ ns) = (¬ In n ns) × Distinct ns

pub Adds-new :
    (ns before after : List String)
    → Adds ns before after
    → Distinct ns × ((n : String) → In n ns → ¬ In n before)
Adds-new [] before after h = (tt, (λ n i. elim i [ ]))
Adds-new (x ∷ ns) before after (fresh, h) =
    let (d, apart) = Adds-new ns (x ∷ before) after h in
    (((λ i. apart x i (inl refl)), d), away apart)
  where
    away :
        ((n : String) → In n ns → ¬ In n (x ∷ before))
        → (n : String) → In n (x ∷ ns)
        → ¬ In n before
    away apart n (inl e) i = fresh (subst (λ y. In y before) e i)
    away apart n (inr k) i = apart n k (inr i)

pub Adds-append : (ns ms a b c : List String) → Adds ns a b → Adds ms b c → Adds (ns ++ ms) a c
Adds-append [] ms a b c h k = subst (λ x. Adds ms x c) (sym h) k
Adds-append (n ∷ ns) ms a b c (fresh, h) k = (fresh, Adds-append ns ms (n ∷ a) b c h k)

pub Adds-In :
    (ns before after : List String) (x : String)
    → Adds ns before after
    → In x after
    → In x ns ⊎ In x before
Adds-In [] before after x h i = inr (subst (λ l. In x l) (sym h) i)
Adds-In (n ∷ ns) before after x (fresh, h) i = elim (Adds-In ns (n ∷ before) after x h i) [
  | inl k ↦ inl (inr k)
  | inr (inl e) ↦ inl (inl e)
  | inr (inr k) ↦ inr k
]

pub Adds-keeps :
    (ns before after : List String) (x : String) → Adds ns before after → In x before → In x after
Adds-keeps [] before after x h i = subst (λ l. In x l) h i
Adds-keeps (n ∷ ns) before after x (fresh, h) i = Adds-keeps ns (n ∷ before) after x h (inr i)

pub Distinct-insert :
    (x : String) (xs ys : List String)
    → ¬ In x (xs ++ ys)
    → Distinct (xs ++ ys)
    → Distinct (xs ++ (x ∷ ys))
Distinct-insert x [] ys new d = (new, d)
Distinct-insert x (z ∷ xs) ys new (fresh, d) = (apart, Distinct-insert x xs ys (λ i. new (inr i)) d)
  where
    apart : ¬ In z (xs ++ (x ∷ ys))
    apart i = elim (In-append z xs (x ∷ ys) i) [
      | inl k ↦ fresh (In-append_left z xs ys k)
      | inr (inl e) ↦ new (inl (sym e))
      | inr (inr k) ↦ fresh (In-append_right z xs ys k)
    ]

-- The first list is the second without some of its elements.
pub data Sub : List String → List String → Type 0 where
  sub_nil : Sub [] []
  sub_drop : {x : String} {xs ys : List String} → Sub xs ys → Sub xs (x ∷ ys)
  sub_keep : {x : String} {xs ys : List String} → Sub xs ys → Sub (x ∷ xs) (x ∷ ys)

pub Sub-refl : (xs : List String) → Sub xs xs
Sub-refl [] = sub_nil
Sub-refl (x ∷ xs) = sub_keep (Sub-refl xs)

pub Sub-append : {ws xs ys zs : List String} → Sub ws xs → Sub ys zs → Sub (ws ++ ys) (xs ++ zs)
Sub-append sub_nil k = k
Sub-append (sub_drop h) k = sub_drop (Sub-append h k)
Sub-append (sub_keep h) k = sub_keep (Sub-append h k)

pub Sub-In : {xs ys : List String} (x : String) → Sub xs ys → In x xs → In x ys
Sub-In x sub_nil i = i
Sub-In x (sub_drop h) i = inr (Sub-In x h i)
Sub-In x (sub_keep h) (inl e) = inl e
Sub-In x (sub_keep h) (inr i) = inr (Sub-In x h i)

pub Sub-Distinct : {xs ys : List String} → Sub xs ys → Distinct ys → Distinct xs
Sub-Distinct sub_nil d = d
Sub-Distinct (sub_drop h) (fresh, d) = Sub-Distinct h d
Sub-Distinct (sub_keep h) (fresh, d) = ((λ i. fresh (Sub-In _ h i)), Sub-Distinct h d)

-- the keys of the elements that a test keeps
pub keep-Sub :
    {A : Type 0} (f : A → String) (p : A → Bool) (xs : List A) → Sub (map f (keep p xs)) (map f xs)
keep-Sub f p [] = sub_nil
keep-Sub f p (x ∷ xs) = elim (Bool-cases (p x)) [
  | inl e ↦ rw e (sub_keep (keep-Sub f p xs))
  | inr e ↦ rw e (sub_drop (keep-Sub f p xs))
]

pub Distinct-last :
    (x : String) (xs : List String) → ¬ In x xs → Distinct xs → Distinct (xs ++ (x ∷ []))
Distinct-last x xs new d =
    let same : xs ++ [] ≡ xs = append-nil xs in Distinct-insert x xs [] (rw same new) (rw same d)

pub keys-append :
    {A : Type 0} (f : A → String) (xs ys : List A) → map f (xs ++ ys) ≡ map f xs ++ map f ys
keys-append f [] ys = refl
keys-append f (x ∷ xs) ys = rw (keys-append f xs ys)

pub Distinct-append :
    (xs ys : List String)
    → Distinct xs
    → Distinct ys
    → ((p : String) → In p xs → ¬ In p ys)
    → Distinct (xs ++ ys)
Distinct-append [] ys d k apart = k
Distinct-append (x ∷ xs) ys (fresh, d) k apart =
    (new, Distinct-append xs ys d k (λ p i. apart p (inr i)))
  where
    new : ¬ In x (xs ++ ys)
    new i = elim (In-append x xs ys i) [ inl j ↦ fresh j | inr j ↦ apart x (inl refl) j ]

pub Distinct-apart :
    (xs ys : List String) → Distinct (xs ++ ys) → (p : String) → In p xs → ¬ In p ys
Distinct-apart [] ys d p i = elim i [ ]
Distinct-apart (x ∷ xs) ys (fresh, d) p (inl e) =
    λ j. fresh (In-append_right x xs ys (subst (λ q. In q ys) e j))
Distinct-apart (x ∷ xs) ys (fresh, d) p (inr i) = Distinct-apart xs ys d p i

pub Distinct-right : (xs ys : List String) → Distinct (xs ++ ys) → Distinct ys
Distinct-right [] ys d = d
Distinct-right (x ∷ xs) ys (fresh, d) = Distinct-right xs ys d

-- Two given lists share no text, and a given list has no text twice, where the tests say so.
pub shares_none :
    (xs ys : List String)
    → all (λ x. not (any (λ y. y == x) ys)) xs ≡ true
    → (p : String) → In p xs
    → ¬ In p ys
shares_none [] ys h p i = λ j. elim i [ ]
shares_none (x ∷ xs) ys h p (inr i) =
    shares_none xs ys (and→both (not (any (λ y. y == x) ys)) _ h).1 p i
shares_none (x ∷ xs) ys h p (inl e) = λ j.
    let found : any (λ y. y == x) ys ≡ true = In→any (λ y. y == x) p ys j ((eq_iff p x).1 e) in
    absurd (cc (sym (and→both (not (any (λ y. y == x) ys)) _ h).0 ∙ ap not found))

abbrev pub distinct_texts : List String → Bool
distinct_texts [] = true
distinct_texts (x ∷ xs) = not (any (λ y. y == x) xs) && distinct_texts xs

pub distinct_texts-Distinct : (xs : List String) → distinct_texts xs ≡ true → Distinct xs
distinct_texts-Distinct [] h = tt
distinct_texts-Distinct (x ∷ xs) h =
    let (new, rest) = and→both (not (any (λ y. y == x) xs)) (distinct_texts xs) h in
    (shares_none (x ∷ []) xs (rw new refl) x (inl refl), distinct_texts-Distinct xs rest)
