-- ===== src/Pgids.antt =====
-- page.go: `pgids.merge` and `mergepgids`, the sorted union of two lists of page ids.
pub mod Merge
pub mod Union
use bolt_analysis.Prelude.{
  ℕ, zero, suc, ◌+◌, List, [], ◌∷◌, ◌++◌, ltb, leb, ◌==◌, if◌then◌else◌, length, get_or, take, drop,
}
use bolt_analysis.Prelude.Results.{Result, ok, err}
use bolt_analysis.Panics.{Panic, diverged, index_out_of_range, merge_bad_len}
use bolt_analysis.GoSort.{search}

-- Go's `copy(dst, src)`: what `dst` holds afterwards.
abbrev pub copy : List ℕ → List ℕ → List ℕ
copy dst src = take (length dst) src ++ drop (length src) dst

-- `sort.Search(len(lead), func(i int) bool { return lead[i] > follow[0] })`
pub ahead : List ℕ → ℕ → ℕ
ahead lead y = search (length lead) (λ i. ltb y (get_or lead i 0))

-- The loop of `mergepgids`: rounds left, `lead`, `follow`, and what is merged so far.
pub merge_loop : ℕ → List ℕ → List ℕ → List ℕ → Result Panic (List ℕ)
merge_loop zero lead follow merged = err diverged
merge_loop (suc fuel) [] follow merged = ok (merged ++ follow)
merge_loop (suc fuel) (x ∷ xs) [] merged = err index_out_of_range
merge_loop (suc fuel) (x ∷ xs) (y ∷ ys) merged =
    let lead = x ∷ xs in
    let n = ahead lead y in
    let merged' = merged ++ take n lead in
    let swapped = merge_loop fuel (y ∷ ys) (drop n lead) merged' in
    if leb (length lead) n then ok (merged' ++ (y ∷ ys)) else swapped

-- The part of `mergepgids` where neither list is empty. Each round takes at least one id.
merge_ids : List ℕ → List ℕ → Result Panic (List ℕ)
unfolding merge_loop
merge_ids a b =
    let fuel = length a + length b in
    if ltb (get_or b 0 0) (get_or a 0 0) then merge_loop fuel b a [] else merge_loop fuel a b []

over : List ℕ → Result Panic (List ℕ) → Result Panic (List ℕ)
over dst (ok ids) = ok (copy dst ids)
over dst (err e) = err e

-- `mergepgids(dst, a, b)` returns what `dst` holds afterwards. The result is appended to `dst[:0]`,
-- so it overwrites the front of `dst`, whose capacity suffices by the first test.
unfoldable pub mergepgids : List ℕ → List ℕ → List ℕ → Result Panic (List ℕ)
unfolding merge_ids over ahead
mergepgids dst a b =
    if ltb (length dst) (length a + length b)
    then err merge_bad_len
    else if length a == 0
    then ok (copy dst b)
    else if length b == 0
    then ok (copy dst a)
    else over dst (merge_ids a b)

-- `make(pgids, n)`
abbrev pub zeros : ℕ → List ℕ
zeros zero = []
zeros (suc n) = 0 ∷ zeros n

-- `a.merge(b)`
unfoldable pub merge : List ℕ → List ℕ → Result Panic (List ℕ)
unfolding mergepgids
merge a b =
    if length a == 0
    then ok b
    else if length b == 0
    then ok a
    else mergepgids (zeros (length a + length b)) a b
