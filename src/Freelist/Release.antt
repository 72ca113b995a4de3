-- ===== src/Freelist/Release.antt =====
-- `release` and `rollback` on any valid freelist.
use bolt_analysis.Prelude.{
  ◌==◌, false, inl, inr, leb, ltb, true, Bool-cases, if◌then◌else◌, ℕ, zero, suc, ◌+◌, ◌≤◌, ◌<◌,
  ◌≡◌, refl, arith, List, [], ◌∷◌, ◌++◌,
}
use bolt_analysis.Prelude.Counts.{All-of_count, count, count-append}
use bolt_analysis.Prelude.Results.{ok}
use bolt_analysis.GoSort.{sort}
use bolt_analysis.GoSort.Sorted.{sort-IsSorted, sort-SameItems}
use bolt_analysis.Pgids.Union.{merge-eq-sort}
use bolt_analysis.Freelist.{Freelist, released, kept, release, rollback}
use bolt_analysis.Freelist.TxMap.{Pending, lookup, pending_ids, HasUniqueKeys}
use bolt_analysis.Freelist.TxMap.Laws.{delete-HasUniqueKeys, Lacks, lookup-delete, count-delete}
use bolt_analysis.Freelist.Valid.{
  IsAbove-of_IsSorted, IsAbove, IsSorted-of_IsAbove, IsValid, unmark_all-eq, cached,
}

count-released :
    (a txid : ℕ) (m : Pending)
    → count a (pending_ids m) ≡ count a (released txid m) + count a (pending_ids (kept txid m))
unfolding released kept
count-released a txid [] = refl
count-released a txid ((t, ids) ∷ m) = elim (Bool-cases (leb t txid)) [
  | inl old ↦ rw old (
      omega (
        arith,
        count-append a ids (pending_ids m),
        count-append a ids (released txid m),
        count-released a txid m,
      ))
  | inr young ↦ rw young (
      omega (
        arith,
        count-append a ids (pending_ids m),
        count-append a ids (pending_ids (kept txid m)),
        count-released a txid m,
      ))
]

lookup-kept :
    (t txid : ℕ) (m : Pending) → lookup t (kept txid m) ≡ (if leb t txid then [] else lookup t m)
unfolding lookup kept
lookup-kept t txid [] = ground arith
lookup-kept t txid ((k, ids) ∷ m) = ground (arith, lookup-kept t txid m)

Lacks-kept : (t txid : ℕ) (m : Pending) → Lacks t m → Lacks t (kept txid m)
unfolding kept
Lacks-kept t txid [] h = tt
Lacks-kept t txid ((k, ids) ∷ m) h = elim (Bool-cases (leb k txid)) [
  | inl old ↦ rw old (Lacks-kept t txid m h.1)
  | inr young ↦ rw young (h.0, Lacks-kept t txid m h.1)
]

kept-HasUniqueKeys : (txid : ℕ) (m : Pending) → HasUniqueKeys m → HasUniqueKeys (kept txid m)
unfolding kept
kept-HasUniqueKeys txid [] u = tt
kept-HasUniqueKeys txid ((k, ids) ∷ m) u = elim (Bool-cases (leb k txid)) [
  | inl old ↦ rw old (kept-HasUniqueKeys txid m u.1)
  | inr young ↦ rw young (Lacks-kept k txid m u.0, kept-HasUniqueKeys txid m u.1)
]

-- The ids of a valid freelist and those of `more`, sorted, ascend from 2 if no number is twice in them.
IsAbove-sort :
    (f : Freelist) (xs : List ℕ)
    → IsValid f
    → ((a : ℕ) → count a xs ≤ count a f.ids + count a (pending_ids f.pending))
    → IsAbove 1 (sort xs)
IsAbove-sort f xs v within =
    let mem = λ (a : ℕ) (h : 0 < count a (sort xs)).
      cached v a (omega (arith, within a, sort-SameItems xs a)) in
    IsAbove-of_IsSorted 1 (sort xs) (sort-IsSorted xs)
      (All-of_count (λ x. 1 < x) (sort xs) (λ a h. past_meta a (mem a h)))
      (λ a. ground (arith, within a, v.counted a, sort-SameItems xs a))
  where
    past_meta : (a : ℕ) → f.cache a ≡ true → 1 < a
    past_meta zero c = cc (v.metas.0)
    past_meta (suc zero) c = cc (v.metas.1)
    past_meta (suc (suc a)) c = omega arith

module _ (txid : ℕ) (f : Freelist) (v : IsValid f) where
  abbrev moved : List ℕ
  moved = sort (f.ids ++ sort (released txid f.pending))

  count-moved : (a : ℕ) → count a moved ≡ count a f.ids + count a (released txid f.pending)
  count-moved a = omega (
    arith,
    sort-SameItems (f.ids ++ sort (released txid f.pending)) a,
    count-append a f.ids (sort (released txid f.pending)),
    sort-SameItems (released txid f.pending) a,
  )

  release-eq : release txid f ≡ (ok tt, record f { ids = moved; pending = kept txid f.pending })
  unfolding release
  release-eq = rw (
      merge-eq-sort f.ids (sort (released txid f.pending)) (IsSorted-of_IsAbove 1 f.ids v.ascending)
        (sort-IsSorted (released txid f.pending)))

  -- `release` of a valid freelist does not panic and leaves a valid freelist: the ids that were
  -- pending for a transaction up to `txid` join the free ids, each as often as before, the others
  -- stay pending, and no id leaves or enters the cache.
  pub release_lem :
      ((release txid f).0 ≡ ok tt)
      × IsValid (release txid f).1
      × ((id : ℕ)
          → count id (release txid f).1.ids ≡ count id f.ids + count id (released txid f.pending))
      × ((t : ℕ)
          → lookup t (release txid f).1.pending ≡ (if leb t txid then [] else lookup t f.pending))
      × ((release txid f).1.cache ≡ f.cache)
  release_lem = rw release-eq (
    refl,
    record {
      ascending = IsAbove-sort f (f.ids ++ sort (released txid f.pending)) v (λ a. omega (
        arith,
        count-moved a,
        sort-SameItems (f.ids ++ sort (released txid f.pending)) a,
        count-released a txid f.pending,
      ));
      bounded = v.bounded;
      unique = kept-HasUniqueKeys txid f.pending v.unique;
      metas = v.metas;
      counted = λ a. omega (arith, count-moved a, count-released a txid f.pending, v.counted a);
    },
    count-moved,
    λ t. lookup-kept t txid f.pending,
    refl,
  )

  -- `rollback` of a transaction leaves a valid freelist with the same free ids: the ids that were
  -- pending for it are no longer in the cache, the others of the cache are, and the pending ids of
  -- the other transactions stay.
  pub rollback_lem :
      IsValid (rollback txid f)
      × ((rollback txid f).ids ≡ f.ids)
      × ((id : ℕ)
          → (rollback txid f).cache id
            ≡ (if ltb 0 (count id (lookup txid f.pending)) then false else f.cache id))
      × ((t : ℕ)
          → lookup t (rollback txid f).pending ≡ (if txid == t then [] else lookup t f.pending))
  unfolding rollback
  rollback_lem =
      let out = unmark_all-eq (lookup txid f.pending) f.cache in
      (
        record {
          ascending = v.ascending;
          bounded = λ id c. v.bounded id (ground (arith, out id));
          unique = delete-HasUniqueKeys txid f.pending v.unique;
          metas = (ground (arith, out 0, v.metas.0), ground (arith, out 1, v.metas.1));
          counted = λ a. ground (arith, out a, v.counted a, count-delete a txid f.pending v.unique);
        },
        refl,
        out,
        λ t. lookup-delete txid t f.pending,
      )
