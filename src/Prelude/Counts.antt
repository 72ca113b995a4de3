-- ===== src/Prelude/Counts.antt =====
-- How often a number occurs in a list, and what two lists with the same counts share.
use bolt_analysis.Prelude.Tests.{◌==◌, bit, ==_iff, Bool-cases}
use bolt_analysis.Prelude.Lists.{All, take, drop}
use Prim.Native.Nat.{ℕ, zero, suc, ◌+◌, ◌<◌}
use mathlib.Core.Path.{◌≡◌, subst, sym, refl}
use mathlib.Core.Logic.{inl, inr}
use mathlib.Core.Bool.{false}
use mathlib.Core.List.{List, [], ◌∷◌, ◌++◌}
use native.Mathlib.Omega.{arith}

abbrev pub count : ℕ → List ℕ → ℕ
count a [] = 0
count a (x ∷ xs) = bit (a == x) + count a xs

-- The lists hold the same numbers, each as often: one is a rearrangement of the other.
abbrev pub SameItems : List ℕ → List ℕ → Type 0
SameItems xs ys = (a : ℕ) → count a xs ≡ count a ys

module _ (id : ℕ) where
  pub count-append :
      (left right : List ℕ) → count id (left ++ right) ≡ count id left + count id right
  count-append [] right = omega arith
  count-append (first ∷ left) right = omega (arith, count-append left right)

module _ {ℓ} (P : ℕ → Type ℓ) where
  -- What holds of all members holds of each number that occurs.
  pub All-count : (xs : List ℕ) (a : ℕ) → All P xs → 0 < count a xs → P a
  All-count [] a h lt = absurd (omega arith)
  All-count (x ∷ xs) a h lt = elim (Bool-cases (a == x)) [
    | inl same ↦ subst P (sym ((==_iff a x).0 same)) h.0
    | inr other ↦ All-count xs a h.1 (ground arith)
  ]

  pub All-of_count : (xs : List ℕ) → ((a : ℕ) → 0 < count a xs → P a) → All P xs
  All-of_count [] f = tt
  All-of_count (x ∷ xs) f = (f x (ground arith), All-of_count xs (λ a lt. f a (omega arith)))

  pub All-SameItems : (xs ys : List ℕ) → SameItems xs ys → All P xs → All P ys
  All-SameItems xs ys same h = All-of_count ys (λ a lt. All-count xs a h (omega (arith, same a)))

-- No number occurs that all members differ from.
pub count-eq_zero : (a : ℕ) (xs : List ℕ) → All (λ x. (a == x) ≡ false) xs → count a xs ≡ 0
count-eq_zero a [] h = refl
count-eq_zero a (x ∷ xs) h = ground (arith, count-eq_zero a xs h.1)

pub count-take-drop :
    (a n : ℕ) (xs : List ℕ) → count a (take n xs) + count a (drop n xs) ≡ count a xs
count-take-drop a zero xs = omega arith
count-take-drop a (suc n) [] = refl
count-take-drop a (suc n) (x ∷ xs) = omega (arith, count-take-drop a n xs)
