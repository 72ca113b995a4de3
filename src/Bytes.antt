-- ===== src/Bytes.antt =====
-- Go byte slices as lists of bytes: `bytes.Compare` and `bytes.Equal`.
use bolt_analysis.Prelude.{
  sym, inl, inr, Bool-cases, subst, ℕ, ◌≡◌, ◌↔◌, refl, ap₂, List, [], ◌∷◌, Bool, true, false, arith,
}
use Prim.Native.Nat.{compare, Ordering}

abbrev pub Bytes : Type 0
Bytes = List ℕ

-- `bytes.Compare(a, b)`: -1, 0 or 1 as `lt`, `eq` or `gt`
unfoldable pub compare_bytes : Bytes → Bytes → Ordering
compare_bytes [] [] = Ordering.eq
compare_bytes [] (y ∷ ys) = Ordering.lt
compare_bytes (x ∷ xs) [] = Ordering.gt
compare_bytes (x ∷ xs) (y ∷ ys) = elim (compare x y) [
  | Ordering.lt ↦ Ordering.lt
  | Ordering.eq ↦ compare_bytes xs ys
  | Ordering.gt ↦ Ordering.gt
]

-- `bytes.Compare(a, b) == -1`
abbrev pub less : Bytes → Bytes → Bool
less a b = elim (compare_bytes a b) [ Ordering.lt ↦ true | _ ↦ false ]

-- `bytes.Equal(a, b)`
abbrev pub equal : Bytes → Bytes → Bool
equal a b = elim (compare_bytes a b) [ Ordering.eq ↦ true | _ ↦ false ]

pub compare_bytes_refl : (a : Bytes) → compare_bytes a a ≡ Ordering.eq
unfolding compare_bytes
compare_bytes_refl [] = refl
compare_bytes_refl (x ∷ xs) = ground (arith, compare_bytes_refl xs)

pub eq-of_compare_bytes : (a b : Bytes) → compare_bytes a b ≡ Ordering.eq → a ≡ b
unfolding compare_bytes
eq-of_compare_bytes [] [] h = refl
eq-of_compare_bytes [] (y ∷ ys) h = absurd (ground arith)
eq-of_compare_bytes (x ∷ xs) [] h = absurd (ground arith)
eq-of_compare_bytes (x ∷ xs) (y ∷ ys) h =
    ap₂ ◌∷◌ (ground arith) (eq-of_compare_bytes xs ys (ground arith))

-- Turning the arguments round turns the answer round.
abbrev pub flipped : Ordering → Ordering
flipped Ordering.lt = Ordering.gt
flipped Ordering.eq = Ordering.eq
flipped Ordering.gt = Ordering.lt

pub compare_bytes_flip : (a b : Bytes) → compare_bytes b a ≡ flipped (compare_bytes a b)
unfolding compare_bytes
compare_bytes_flip [] [] = refl
compare_bytes_flip [] (y ∷ ys) = refl
compare_bytes_flip (x ∷ xs) [] = refl
compare_bytes_flip (x ∷ xs) (y ∷ ys) = ground (arith, compare_bytes_flip xs ys)

pub less_trans : (a b c : Bytes) → less a b ≡ true → less b c ≡ true → less a c ≡ true
unfolding compare_bytes
less_trans [] [] c h k = absurd (ground arith)
less_trans [] (y ∷ ys) [] h k = absurd (ground arith)
less_trans [] (y ∷ ys) (z ∷ zs) h k = refl
less_trans (x ∷ xs) [] c h k = absurd (ground arith)
less_trans (x ∷ xs) (y ∷ ys) [] h k = absurd (ground arith)
less_trans (x ∷ xs) (y ∷ ys) (z ∷ zs) h k = ground (arith, less_trans xs ys zs)

pub compare_bytes-of_eq : (a b : Bytes) → a ≡ b → compare_bytes a b ≡ Ordering.eq
compare_bytes-of_eq a b e = subst (λ x. compare_bytes a x ≡ Ordering.eq) e (compare_bytes_refl a)

pub equal_iff : (a b : Bytes) → (equal a b ≡ true) ↔ (a ≡ b)
equal_iff a b =
    (λ h. eq-of_compare_bytes a b (ground arith), λ e. ground (arith, compare_bytes-of_eq a b e))

-- a ≤ b and b < c give a < c.
pub le_less_trans : (a b c : Bytes) → less b a ≡ false → less b c ≡ true → less a c ≡ true
le_less_trans a b c h k = elim (Bool-cases (equal a b)) [
  | inl same ↦ subst (λ x. less x c ≡ true) (sym ((equal_iff a b).0 same)) k
  | inr other ↦ less_trans a b c (ground (arith, compare_bytes_flip a b)) k
]
