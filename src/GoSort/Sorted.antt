-- ===== src/GoSort/Sorted.antt =====
-- Ascending lists of numbers, and that `sort.Sort` returns the one ascending rearrangement.
use bolt_analysis.Prelude.{
  zero, All-take, take, ℕ, ◌+◌, ◌≤◌, ◌≡◌, refl, ap₂, inl, inr, List, [], ◌∷◌, arith, bit, leb, ◌==◌,
  Bool-cases, All, All-mono, length, suc, sym,
}
use bolt_analysis.Prelude.Counts.{count, SameItems, All-count, All-SameItems}
use bolt_analysis.GoSort.{insert_sorted, sort}

abbrev pub IsSorted : List ℕ → Type 0
IsSorted [] = Unit
IsSorted (x ∷ xs) = All (λ y. x ≤ y) xs × IsSorted xs

count-insert_sorted :
    (a x : ℕ) (xs : List ℕ) → count a (insert_sorted x xs) ≡ bit (a == x) + count a xs
unfolding insert_sorted
count-insert_sorted a x [] = refl
count-insert_sorted a x (y ∷ ys) = ground (arith, count-insert_sorted a x ys)

pub sort-SameItems : (xs : List ℕ) → SameItems (sort xs) xs
unfolding sort
sort-SameItems [] a = refl
sort-SameItems (x ∷ xs) a = omega (arith, count-insert_sorted a x (sort xs), sort-SameItems xs a)

insert_sorted-All {ℓ} :
    (P : ℕ → Type ℓ) (x : ℕ) (xs : List ℕ) → P x → All P xs → All P (insert_sorted x xs)
insert_sorted-All P x xs px h =
    All-SameItems P (x ∷ xs) (insert_sorted x xs) (λ a. omega (arith, count-insert_sorted a x xs))
      (px, h)

insert_sorted-IsSorted : (x : ℕ) (xs : List ℕ) → IsSorted xs → IsSorted (insert_sorted x xs)
unfolding insert_sorted
insert_sorted-IsSorted x [] s = (tt, tt)
insert_sorted-IsSorted x (y ∷ ys) s = elim (Bool-cases (leb x y)) [
  | inl le ↦
      rw le ((ground arith, All-mono (λ z. y ≤ z) (λ z. x ≤ z) ys (λ z h. ground arith) s.0), s)
  | inr gt ↦
      rw gt
        (insert_sorted-All (λ z. y ≤ z) x ys (ground arith) s.0, insert_sorted-IsSorted x ys s.1)
]

pub sort-IsSorted : (xs : List ℕ) → IsSorted (sort xs)
unfolding sort
sort-IsSorted [] = tt
sort-IsSorted (x ∷ xs) = insert_sorted-IsSorted x (sort xs) (sort-IsSorted xs)

length-insert_sorted : (x : ℕ) (xs : List ℕ) → length (insert_sorted x xs) ≡ suc (length xs)
unfolding insert_sorted
length-insert_sorted x [] = refl
length-insert_sorted x (y ∷ ys) = ground (arith, length-insert_sorted x ys)

pub length-sort : (xs : List ℕ) → length (sort xs) ≡ length xs
unfolding sort
length-sort [] = refl
length-sort (x ∷ xs) = omega (arith, length-insert_sorted x (sort xs), length-sort xs)

head_le :
    (x : ℕ) (xs : List ℕ) (y : ℕ) (ys : List ℕ)
    → IsSorted (x ∷ xs)
    → SameItems (x ∷ xs) (y ∷ ys)
    → x ≤ y
head_le x xs y ys s same =
    All-count (λ z. x ≤ z) (x ∷ xs) y (omega arith, s.0) (ground (arith, same y))

-- A list has at most one ascending rearrangement.
pub eq_of_SameItems : (xs ys : List ℕ) → IsSorted xs → IsSorted ys → SameItems xs ys → xs ≡ ys
eq_of_SameItems [] [] sx sy same = refl
eq_of_SameItems [] (y ∷ ys) sx sy same = absurd (ground (arith, same y))
eq_of_SameItems (x ∷ xs) [] sx sy same = absurd (ground (arith, same x))
eq_of_SameItems (x ∷ xs) (y ∷ ys) sx sy same =
    let heads : x ≡ y =
      omega (arith, head_le x xs y ys sx same, head_le y ys x xs sy (λ a. sym (same a))) in
    ap₂ ◌∷◌ heads (eq_of_SameItems xs ys sx.1 sy.1 (λ a. ground (arith, same a, heads)))

pub IsSorted-take : (n : ℕ) (xs : List ℕ) → IsSorted xs → IsSorted (take n xs)
IsSorted-take zero xs s = tt
IsSorted-take (suc n) [] s = tt
IsSorted-take (suc n) (x ∷ xs) s = (All-take (λ z. x ≤ z) n xs s.0, IsSorted-take n xs s.1)
