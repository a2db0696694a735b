-- ===== src/Base/Sort.antt =====
-- The order of texts, and Go's sort.Strings.
use Prim.Native.Char.{code}
use Prim.Native.String.{String}
use mathlib.Core.Logic.{◌↔◌, inl, inr}
use mathlib.Core.Bool.{Bool, true, false, ◌&&◌, ◌||◌}
use mathlib.Core.List.{List, [], ◌∷◌}
use xal_tor_ka.Base.Tests.{if◌then◌else◌, ltb, eqb, Bool-cases}
use xal_tor_ka.Base.Lists.{In}

-- a < b for texts, by their characters, which is the order of their bytes in UTF-8
unfoldable pub text_ltb : String → String → Bool
text_ltb s String.[] = false
text_ltb String.[] (String.◌∷◌ d t) = true
text_ltb (String.◌∷◌ c s) (String.◌∷◌ d t) =
    ltb (code c) (code d) || eqb (code c) (code d) && text_ltb s t

-- sort.Strings
unfoldable pub insert_text : String → List String → List String
insert_text t [] = t ∷ []
insert_text t (x ∷ xs) =
    let behind = insert_text t xs in if text_ltb x t then x ∷ behind else t ∷ x ∷ xs

unfoldable pub sort_texts : List String → List String
sort_texts [] = []
sort_texts (x ∷ xs) = insert_text x (sort_texts xs)

insert_text-In : (g t : String) (xs : List String) → In g (insert_text t xs) ↔ In g (t ∷ xs)
unfolding insert_text
insert_text-In g t [] = ((λ i. i), (λ i. i))
insert_text-In g t (x ∷ xs) = elim (Bool-cases (text_ltb x t)) [
  | inr e ↦ rw e ((λ i. i), (λ i. i))
  | inl e ↦ rw e (there (insert_text-In g t xs), back (insert_text-In g t xs))
]
  where
    there :
        In g (insert_text t xs) ↔ In g (t ∷ xs) → In g (x ∷ insert_text t xs) → In g (t ∷ x ∷ xs)
    there k (inl q) = inr (inl q)
    there k (inr i) = elim (k.0 i) [ inl q ↦ inl q | inr j ↦ inr (inr j) ]

    back : In g (insert_text t xs) ↔ In g (t ∷ xs) → In g (t ∷ x ∷ xs) → In g (x ∷ insert_text t xs)
    back k (inl q) = inr (k.1 (inl q))
    back k (inr (inl q)) = inl q
    back k (inr (inr i)) = inr (k.1 (inr i))

pub sort_texts-In : (g : String) (xs : List String) → In g (sort_texts xs) ↔ In g xs
unfolding sort_texts
sort_texts-In g [] = ((λ i. i), (λ i. i))
sort_texts-In g (x ∷ xs) = (
  (λ i. elim ((insert_text-In g x (sort_texts xs)).0 i) [
    | inl q ↦ inl q
    | inr j ↦ inr ((sort_texts-In g xs).0 j)
  ]),
  (λ i.
      (insert_text-In g x (sort_texts xs)).1
        (elim i [ inl q ↦ inl q | inr j ↦ inr ((sort_texts-In g xs).1 j) ])),
)
