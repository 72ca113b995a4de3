-- ===== src/GoSort.antt =====
-- `sort.Search` and `sort.Sort` of Go's standard library, as the source uses them.
pub mod Search
pub mod Sorted
use bolt_analysis.Prelude.{ℕ, zero, suc, ◌+◌, ◌/◌, Bool, List, [], ◌∷◌, ltb, leb, if◌then◌else◌}

-- The loop of `sort.Search`: `for i < j { h := (i + j) / 2; if !f(h) { i = h + 1 } else { j = h } }`.
unfoldable pub search_loop : ℕ → ℕ → ℕ → (ℕ → Bool) → ℕ
search_loop zero i j f = i
search_loop (suc fuel) i j f =
    let h = (i + j) / 2 in
    let upper = search_loop fuel (h + 1) j f in
    let lower = search_loop fuel i h f in if ltb i j then (if f h then lower else upper) else i

-- `sort.Search(n, f)`; the interval shrinks in each round, so `n` rounds are enough.
unfoldable pub search : ℕ → (ℕ → Bool) → ℕ
unfolding search_loop
search n f = search_loop n 0 n f

pub insert_sorted : ℕ → List ℕ → List ℕ
insert_sorted x [] = x ∷ []
insert_sorted x (y ∷ ys) = let rest = insert_sorted x ys in if leb x y then x ∷ y ∷ ys else y ∷ rest

-- `sort.Sort` of a list of numbers.
unfoldable pub sort : List ℕ → List ℕ
unfolding insert_sorted
sort [] = []
sort (x ∷ xs) = insert_sorted x (sort xs)
