-- ===== src/Agent/Buffer/Laws.antt =====
-- agent/util.go: the buffer holds the front of the output, whatever the sizes of the writes.
use xal_tor_ka.Base.{
  ℕ, zero, suc, ◌-◌, ◌≤◌, ◌≡◌, refl, sym, ap, ◌∙◌, inl, inr, List, [], ◌∷◌, ◌++◌, arith, ltb,
  Bool-cases, length, take, length-append, length-take,
}
use mathlib.Core.List.{append_assoc, append-nil}
use xal_tor_ka.Agent.Buffer.{max_capture, write, write_all}

-- the bytes of the writes, one behind the other
abbrev pub joined : List (List ℕ) → List ℕ
joined [] = []
joined (p ∷ ps) = p ++ joined ps

take-front : (n : ℕ) (xs ys : List ℕ) → n ≤ length xs → take n (xs ++ ys) ≡ take n xs
take-front zero xs ys h = refl
take-front (suc n) [] ys h = absurd (omega arith)
take-front (suc n) (x ∷ xs) ys h = ap (λ l. x ∷ l) (take-front n xs ys (omega arith))

take-all : (n : ℕ) (xs : List ℕ) → length xs ≤ n → take n xs ≡ xs
take-all zero [] h = refl
take-all zero (x ∷ xs) h = absurd (omega arith)
take-all (suc n) [] h = refl
take-all (suc n) (x ∷ xs) h = ap (λ l. x ∷ l) (take-all n xs (omega arith))

take-append :
    (n k : ℕ) (xs ys : List ℕ)
    → length xs ≤ n
    → k ≡ n - length xs
    → take n (xs ++ ys) ≡ xs ++ take k ys
take-append n k [] ys h e = let same : n ≡ k = omega arith in ap (λ m. take m ys) same
take-append zero k (x ∷ xs) ys h e = absurd (omega arith)
take-append (suc n) k (x ∷ xs) ys h e =
    ap (λ l. x ∷ l) (take-append n k xs ys (omega arith) (omega arith))

write-take : (p b : List ℕ) → length b ≤ max_capture → (write p b).0 ≡ take max_capture (b ++ p)
unfolding write
write-take p b h = elim (Bool-cases (ltb 0 (max_capture - length b))) [
  | inr full ↦
      let long : max_capture ≤ length b = ground arith in
      rw (full, write) (sym (take-front max_capture b p long ∙ take-all max_capture b h))
  | inl room ↦ elim (Bool-cases (ltb (max_capture - length b) (length p))) [
    | inl over ↦ rw (room, over, write) (sym (take-append max_capture _ b p h refl))
    | inr fits ↦
        let short : length (b ++ p) ≤ max_capture = ground (arith, length-append b p) in
        rw (room, fits, write) (sym (take-all max_capture (b ++ p) short))
  ]
]

take-absorb : (n : ℕ) (xs ys : List ℕ) → take n (take n xs ++ ys) ≡ take n (xs ++ ys)
take-absorb zero xs ys = refl
take-absorb (suc n) [] ys = refl
take-absorb (suc n) (x ∷ xs) ys = ap (λ l. x ∷ l) (take-absorb n xs ys)

writes-take :
    (ps : List (List ℕ)) (b : List ℕ)
    → length b ≤ max_capture
    → write_all ps b ≡ take max_capture (b ++ joined ps)
unfolding write_all
writes-take [] b h =
    let short : length (b ++ []) ≤ max_capture = omega (arith, length-append b [], h) in
    sym (take-all max_capture (b ++ []) short ∙ append-nil b)
writes-take (p ∷ ps) b h =
    let short : length (take max_capture (b ++ p)) ≤ max_capture =
      omega (arith, length-take max_capture (b ++ p)) in
    ap (λ l. write_all ps l) (write-take p b h)
    ∙ writes-take ps (take max_capture (b ++ p)) short
    ∙ take-absorb max_capture (b ++ p) (joined ps)
    ∙ ap (take max_capture) (append_assoc b p (joined ps))

-- After any writes of any sizes the buffer holds the first 262144 bytes of the output, or all of a
-- shorter one, and each write reports the full length of its piece, so that no command blocks.
pub write_all_lem :
    (ps : List (List ℕ))
    → (write_all ps [] ≡ take max_capture (joined ps))
      × (length (write_all ps []) ≤ max_capture)
      × ((p b : List ℕ) → (write p b).1 ≡ length p)
unfolding write
write_all_lem ps =
    let front = writes-take ps [] (omega arith) in
    let long = ap length front in
    (front, omega (arith, long, length-take max_capture (joined ps)), (λ p b. refl))
