-- ===== src/Db/Sizes.antt =====
-- The map and the file are large enough for the pages.
use native.Mathlib.Nat.{mul-mod_right, pow-succ', mul_assoc, mul_comm}
use bolt_analysis.Prelude.{
  subst, ◌==◌, ℕ, zero, suc, ◌+◌, ◌-◌, ◌*◌, ◌/◌, ◌%◌, ◌^◌, ◌≤◌, ◌<◌, ◌≡◌, ◌⊎◌, inl, inr, refl, ap,
  sym, ◌∙◌, arith, ltb, leb, true, false, Bool-cases, Option, none, some,
}
use bolt_analysis.Prelude.Results.{ok, err}
use bolt_analysis.Errors.{mmap_too_large}
use bolt_analysis.Db.{double_loop, round_step, round_page, step_size, doubled_or_step, mmap_size}

-- What the doubling finds for a size, from the exponent `i` to `i + k`: a power of two that covers
-- the size and is below its double, if it is not the first one; or none, if the last one is too small.
abbrev IsDouble : ℕ → ℕ → ℕ → Option ℕ → Type 0
IsDouble i k size none = 2 ^ (i + k) < size
IsDouble i k size (some r) =
    (size ≤ r) × (r ≤ 2 ^ (i + k)) × ((r ≡ 2 ^ i) ⊎ (r < 2 * size)) × ((q : ℕ) × (r ≡ 2 ^ i * q))

two_pow : (i : ℕ) → 2 ^ suc i ≡ 2 * 2 ^ i
two_pow i = pow-succ' 2 i

pow-le : (i k : ℕ) → 2 ^ i ≤ 2 ^ (i + k)
pow-le i zero = let e : i + zero ≡ i = omega arith in rw e (omega arith)
pow-le i (suc k) =
    let e : i + suc k ≡ suc (i + k) = omega arith in
    rw e (omega (arith, pow-le i k, two_pow (i + k)))

IsDouble-next :
    (i k size : ℕ) (o : Option ℕ)
    → 2 ^ i < size
    → IsDouble (suc i) k size o
    → IsDouble i (suc k) size o
IsDouble-next i k size none h d = let e : suc i + k ≡ i + suc k = omega arith in rw e at d
IsDouble-next i k size (some r) h (lo, hi, tight, (q, e)) =
    let same : suc i + k ≡ i + suc k = omega arith in
    (
      lo,
      rw same at hi,
      inr (elim tight [ inl first ↦ omega (arith, first, two_pow i) | inr below ↦ below ]),
      (2 * q, e ∙ ap (λ n. n * q) (two_pow i ∙ mul_comm 2 (2 ^ i)) ∙ mul_assoc (2 ^ i) 2 q),
    )

double_loop-IsDouble : (k i size : ℕ) → IsDouble i k size (double_loop (suc k) i size)
unfolding double_loop
double_loop-IsDouble zero i size = elim (Bool-cases (leb size (2 ^ i))) [
  | inl fits ↦ rw fits (ground arith, pow-le i zero, inl refl, (1, omega arith))
  | inr large ↦
      let e : i + zero ≡ i = omega arith in
      rw large (subst (λ n. 2 ^ n < size) (sym e) (ground arith))
]
double_loop-IsDouble (suc k) i size = elim (Bool-cases (leb size (2 ^ i))) [
  | inl fits ↦ rw fits (ground arith, pow-le i (suc k), inl refl, (1, omega arith))
  | inr large ↦
      let e : i + 1 ≡ suc i = omega arith in
      rw (large, e)
        (IsDouble-next i k size (double_loop (suc k) (suc i) size) (ground arith)
          (double_loop-IsDouble k (suc i) size))
]

-- What `mmapSize` promises of the size of the map.
pub record IsMapSize (max_map_size page_size size r : ℕ) : Type 0 where
  pub covers : size ≤ r
  pub below_max : r ≤ max_map_size
  pub tight : (r ≡ 2 ^ 15) ⊎ (r < 2 * size)
  pub whole_pages : (r ≡ max_map_size) ⊎ (r % page_size ≡ 0)

module _ (max_map_size page_size k size : ℕ) (pages : page_size * k ≡ 2 ^ 15)
    (large : 2 ^ 30 ≤ max_map_size) where
  multiple_mod : (m q r : ℕ) → r ≡ m * q → page_size * k ≡ m → r % page_size ≡ 0
  multiple_mod m q r e h =
      let whole : r ≡ page_size * (k * q) = e ∙ ap (λ n. n * q) (sym h) ∙ mul_assoc page_size k q in
      rw whole (mul-mod_right page_size (k * q))

  round_step_mod : (sz : ℕ) → round_step sz % page_size ≡ 0
  unfolding round_step
  round_step_mod sz =
      let q = (sz + 2 ^ 30 - 1) / 2 ^ 30 in
      multiple_mod (2 ^ 15) (2 ^ 15 * q) (round_step sz) (ground arith) pages

  step_size-IsMapSize :
      2 ^ 30 < size
      → size ≤ max_map_size
      → (r : ℕ) × (step_size max_map_size page_size size ≡ ok r)
        × IsMapSize max_map_size page_size size r
  unfolding step_size round_page
  step_size-IsMapSize h le =
      let whole = round_step_mod size in
      let aligned : (round_step size % page_size == 0) ≡ true = ground arith in
      let fits : ltb max_map_size size ≡ false = ground arith in
      elim (Bool-cases (ltb max_map_size (round_step size))) [
        | inl over ↦ (
          max_map_size,
          rw (aligned, fits, over),
          record {
            covers = le;
            below_max = omega arith;
            tight = inr (ground arith);
            whole_pages = inl refl;
          },
        )
        | inr under ↦ (
          round_step size,
          rw (aligned, fits, under),
          record {
            covers = ground arith;
            below_max = ground arith;
            tight = inr (ground arith);
            whole_pages = inr whole;
          },
        )
      ]

  doubled_or_step_lem :
      (o : Option ℕ)
      → IsDouble 15 15 size o
      → (size ≤ max_map_size
          → (r : ℕ) × (doubled_or_step max_map_size page_size size o ≡ ok r)
            × IsMapSize max_map_size page_size size r)
        × (max_map_size < size → doubled_or_step max_map_size page_size size o ≡ err mmap_too_large)
  unfolding doubled_or_step
  doubled_or_step_lem none d = (
    step_size-IsMapSize d,
    λ above.
        unfold step_size in (let over : ltb max_map_size size ≡ true = ground arith in rw over),
  )
  doubled_or_step_lem (some r) (lo, hi, tight, (q, e)) = (
    λ le. (
      r,
      refl,
      record {
        covers = lo;
        below_max = omega arith;
        tight = tight;
        whole_pages = inr (multiple_mod (2 ^ 15) q r e pages);
      },
    ),
    λ above. absurd (omega arith),
  )

  -- For a page size that divides 32 kB and a platform that can map 1 GB: `mmapSize` finds a size that
  -- covers the one asked for, is at most the maximum, is less than twice the one asked for unless it
  -- is 32 kB, and is of whole pages unless it is the maximum; it fails exactly above the maximum.
  pub mmap_size_lem :
      (size ≤ max_map_size
        → (r : ℕ) × (mmap_size max_map_size page_size size ≡ ok r)
          × IsMapSize max_map_size page_size size r)
      × (max_map_size < size → mmap_size max_map_size page_size size ≡ err mmap_too_large)
  unfolding mmap_size
  mmap_size_lem = doubled_or_step_lem (double_loop 16 15 size) (double_loop-IsDouble 15 15 size)
