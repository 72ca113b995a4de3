-- ===== src/Freelist/Valid.antt =====
-- What every freelist of a running database satisfies.
use bolt_analysis.Prelude.{
  ◌||◌, All-mono, ltb, ℕ, ◌+◌, ◌≤◌, ◌<◌, ◌≡◌, Bool, true, false, List, [], ◌∷◌, arith, bit, All,
  if◌then◌else◌, refl,
}
use bolt_analysis.Prelude.Counts.{count as occurs, All-of_count, All-count}
use bolt_analysis.Words.{u64_mod}
use bolt_analysis.GoSort.Sorted.{IsSorted}
use bolt_analysis.Freelist.{Freelist, mark, new_freelist, mark_all, unmark_all}
use bolt_analysis.Freelist.TxMap.{pending_ids, HasUniqueKeys}

-- Ascending and above `lo`.
abbrev pub IsAbove : ℕ → List ℕ → Type 0
IsAbove lo [] = Unit
IsAbove lo (x ∷ xs) = (lo < x) × IsAbove x xs

-- The free ids ascend from 2, and the cache holds exactly the free and the pending ids, each of which
-- stands in one list, once.
pub record IsValid (f : Freelist) : Type 0 where
  pub ascending : IsAbove 1 f.ids
  pub bounded : (id : ℕ) → f.cache id ≡ true → id < u64_mod
  pub unique : HasUniqueKeys f.pending
  pub metas : (f.cache 0 ≡ false) × (f.cache 1 ≡ false)
  pub counted : (id : ℕ) → occurs id f.ids + occurs id (pending_ids f.pending) ≡ bit (f.cache id)

pub new_freelist-IsValid : IsValid new_freelist
unfolding new_freelist
new_freelist-IsValid = record {
  ascending = tt;
  bounded = λ id e. cc;
  unique = tt;
  metas = (refl, refl);
  counted = λ id. omega arith;
}

-- A free or pending id is in the cache.
pub cached :
    {f : Freelist}
    → IsValid f
    → (id : ℕ) → 0 < occurs id f.ids + occurs id (pending_ids f.pending)
    → f.cache id ≡ true
cached {f} v id h = ground (arith, v.counted id)

pub ids_bounded : {f : Freelist} → IsValid f → All (λ id. id < u64_mod) f.ids
ids_bounded {f} v =
    All-of_count (λ id. id < u64_mod) f.ids (λ id h. v.bounded id (cached v id (omega arith)))

All-of_IsAbove : (lo : ℕ) (xs : List ℕ) → IsAbove lo xs → All (λ y. lo ≤ y) xs
All-of_IsAbove lo [] h = tt
All-of_IsAbove lo (x ∷ xs) h = (
  omega arith,
  All-mono (λ y. x ≤ y) (λ y. lo ≤ y) xs (λ y le. omega arith) (All-of_IsAbove x xs h.1),
)

pub IsSorted-of_IsAbove : (lo : ℕ) (xs : List ℕ) → IsAbove lo xs → IsSorted xs
IsSorted-of_IsAbove lo [] h = tt
IsSorted-of_IsAbove lo (x ∷ xs) h = (All-of_IsAbove x xs h.1, IsSorted-of_IsAbove x xs h.1)

-- A sorted list with no number twice ascends strictly.
pub IsAbove-of_IsSorted :
    (lo : ℕ) (xs : List ℕ)
    → IsSorted xs
    → All (λ x. lo < x) xs
    → ((a : ℕ) → occurs a xs ≤ 1)
    → IsAbove lo xs
IsAbove-of_IsSorted lo [] s h once = tt
IsAbove-of_IsSorted lo (x ∷ xs) s h once = (
  h.0,
  IsAbove-of_IsSorted x xs s.1
      (All-of_count (λ y. x < y) xs
        (λ a pos. ground (arith, All-count (λ y. x ≤ y) xs a s.0 pos, once a)))
      (λ a. omega (arith, once a)),
)

pub mark_all-eq :
    (ids : List ℕ) (cache : ℕ → Bool) (j : ℕ)
    → mark_all ids cache j ≡ (ltb 0 (occurs j ids) || cache j)
unfolding mark_all
mark_all-eq [] cache j = refl
mark_all-eq (id ∷ ids) cache j = ground (arith, mark_all-eq ids (mark cache id true) j)

pub unmark_all-eq :
    (ids : List ℕ) (cache : ℕ → Bool) (j : ℕ)
    → unmark_all ids cache j ≡ (if ltb 0 (occurs j ids) then false else cache j)
unfolding unmark_all
unmark_all-eq [] cache j = refl
unmark_all-eq (id ∷ ids) cache j = ground (arith, unmark_all-eq ids (mark cache id false) j)
