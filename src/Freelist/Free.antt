-- ===== src/Freelist/Free.antt =====
-- `free` and `rollback`: a transaction's pages become pending, or panic if they are free already,
-- and a rollback takes them back.
use bolt_analysis.Prelude.{
  if◌then◌else◌, leb, ◌∙◌, inl, inr, ◌==◌, Bool-cases, sym, ap, false, true, ◌%◌, Bool, ◌-◌, ℕ,
  zero, suc, ◌+◌, ◌≤◌, ◌<◌, ◌≡◌, refl, arith, List, [], ◌∷◌, ◌++◌,
}
use bolt_analysis.Prelude.Counts.{count-append}
use bolt_analysis.Prelude.Results.{Result, ok, err}
use bolt_analysis.Panics.{Panic, already_freed}
use bolt_analysis.Words.{u64_mod}
use bolt_analysis.Page.{Page}
use bolt_analysis.Freelist.{
  unmark_all, Freelist, mark, mark_all, free_loop, assign_freed, free, rollback,
}
use bolt_analysis.Freelist.TxMap.{lookup, assign}
use bolt_analysis.Freelist.TxMap.Laws.{
  delete-assign, lookup-Lacks, assign-HasUniqueKeys, Lacks, lookup-assign, count-assign,
}
use bolt_analysis.Freelist.Valid.{IsValid, mark_all-eq, unmark_all-eq}
use bolt_analysis.Freelist.Runs.{run, count-run}
use mathlib.Core.List.{append_assoc, append-nil}
use mathlib.Core.Path.{fun_ext}

-- The pages of `p`, its overflow pages included, fit below 2^64 and lie past the meta pages.
pub record IsPage (p : Page) : Type 0 where
  pub no_meta : 1 < p.id
  pub fits : p.id + p.overflow + 1 < u64_mod

-- None of the ids `start, …, start + n - 1` is free or pending.
abbrev pub AreUsed : ℕ → ℕ → (ℕ → Bool) → Type 0
AreUsed start n cache = (j : ℕ) → start ≤ j → j < start + n → cache j ≡ false

-- The loop over pages in use collects them all.
free_loop-ok :
    (n id : ℕ) (ids : List ℕ) (cache : ℕ → Bool)
    → id + n < u64_mod
    → AreUsed id n cache
    → free_loop n id ids cache ≡ (ok (ids ++ run id n), mark_all (run id n) cache)
unfolding free_loop mark_all
free_loop-ok zero id ids cache fits used = ap (λ l. (ok l, cache)) (sym (append-nil ids))
free_loop-ok (suc n) id ids cache fits used =
    let e : (id + 1) % u64_mod ≡ suc id = omega arith in
    let ih =
      free_loop-ok n (suc id) (ids ++ id ∷ []) (mark cache id true) (omega arith)
        (λ j lo hi. ground (arith, used j)) in
    rw (used id (omega arith) (omega arith), e)
      (ih
        ∙ ap (λ l. (ok l, mark_all (run (suc id) n) (mark cache id true)))
            (append_assoc ids (id ∷ []) (run (suc id) n)))

-- The loop stops at the first page that is not in use.
free_loop-err :
    (n id : ℕ) (ids : List ℕ) (cache : ℕ → Bool) (k : ℕ)
    → id + n < u64_mod
    → id ≤ k
    → k < id + n
    → AreUsed id (k - id) cache
    → cache k ≡ true
    → (free_loop n id ids cache).0 ≡ err (already_freed k)
unfolding free_loop
free_loop-err zero id ids cache k fits lo hi used hit = absurd (omega arith)
free_loop-err (suc n) id ids cache k fits lo hi used hit = elim (Bool-cases (id == k)) [
  | inl here ↦ let same : id ≡ k = ground arith in rw (same, hit)
  | inr later ↦
      let e : (id + 1) % u64_mod ≡ suc id = omega arith in
      rw (used id (omega arith) (ground arith), e)
        (free_loop-err n (suc id) (ids ++ id ∷ []) (mark cache id true) k (omega arith)
          (ground arith) (omega arith) (λ j jl jh. ground (arith, used j)) (ground arith))
]

assign_freed-err :
    (txid : ℕ) (f : Freelist) (r : Result Panic (List ℕ) × (ℕ → Bool)) (e : Panic)
    → r.0 ≡ err e
    → ((assign_freed txid f r).0 ≡ err e)
      × ((assign_freed txid f r).1.ids ≡ f.ids)
      × ((assign_freed txid f r).1.pending ≡ f.pending)
unfolding assign_freed
assign_freed-err txid f (ok ids, cache) e h = cc
assign_freed-err txid f (err e', cache) e h = (cc, refl, refl)

module _ (txid : ℕ) (p : Page) (f : Freelist) (w : IsPage p) where
  rounds : (p.id + p.overflow) % u64_mod + 1 - p.id ≡ p.overflow + 1
  rounds = omega (arith, w.no_meta, w.fits)

  abbrev pub freed_list : Freelist
  freed_list = record f {
    pending = assign txid (lookup txid f.pending ++ run p.id (p.overflow + 1)) f.pending;
    cache = mark_all (run p.id (p.overflow + 1)) f.cache;
  }

  pub free-ok : AreUsed p.id (p.overflow + 1) f.cache → free txid p f ≡ (ok tt, freed_list)
  unfolding free
  free-ok used =
      let past : leb p.id 1 ≡ false = ground (arith, w.no_meta) in
      rw (
        past,
        rounds,
        free_loop-ok (p.overflow + 1) p.id (lookup txid f.pending) f.cache (omega (arith, w.fits))
            used,
      )

  -- Freeing a page of which some part is already free or pending panics, with the first such id,
  -- and leaves the free and the pending ids as they were.
  pub free_twice :
      (k : ℕ)
      → p.id ≤ k
      → k ≤ p.id + p.overflow
      → AreUsed p.id (k - p.id) f.cache
      → f.cache k ≡ true
      → ((free txid p f).0 ≡ err (already_freed k))
        × ((free txid p f).1.ids ≡ f.ids)
        × ((free txid p f).1.pending ≡ f.pending)
  unfolding free
  free_twice k lo hi used hit =
      let past : leb p.id 1 ≡ false = ground (arith, w.no_meta) in
      let stop =
        free_loop-err (p.overflow + 1) p.id (lookup txid f.pending) f.cache k
          (omega (arith, w.fits)) lo (omega arith) used hit in
      rw (past, rounds) (assign_freed-err txid f _ (already_freed k) stop)

  freed_list-IsValid : IsValid f → AreUsed p.id (p.overflow + 1) f.cache → IsValid freed_list
  freed_list-IsValid v used =
      let n = p.overflow + 1 in
      let old = lookup txid f.pending in
      record {
        ascending = v.ascending;
        bounded = λ id c.
            ground (
              arith,
              mark_all-eq (run p.id n) f.cache id,
              count-run p.id n id,
              v.bounded id,
              w.fits,
            );
        unique = assign-HasUniqueKeys txid (old ++ run p.id n) f.pending v.unique;
        metas = (
          ground
              (arith, v.metas.0, w.no_meta, mark_all-eq (run p.id n) f.cache 0, count-run p.id n 0),
          ground
              (arith, v.metas.1, w.no_meta, mark_all-eq (run p.id n) f.cache 1, count-run p.id n 1),
        );
        counted = λ id. ground (
          arith,
          v.counted id,
          used id,
          count-assign id txid (old ++ run p.id n) f.pending,
          count-append id old (run p.id n),
          mark_all-eq (run p.id n) f.cache id,
          count-run p.id n id,
        );
      }

  -- Freeing a page in use, from a valid freelist, leaves a valid freelist with the same free ids;
  -- the transaction's pending ids are followed by the page and its overflow pages, and the pending
  -- ids of the other transactions stay.
  pub free_lem :
      IsValid f
      → AreUsed p.id (p.overflow + 1) f.cache
      → ((free txid p f).0 ≡ ok tt)
        × IsValid (free txid p f).1
        × ((free txid p f).1.ids ≡ f.ids)
        × ((t : ℕ)
            → lookup t (free txid p f).1.pending ≡ (
                if txid == t
                then lookup txid f.pending ++ run p.id (p.overflow + 1)
                else lookup t f.pending))
  free_lem v used = rw (free-ok used) (
    refl,
    freed_list-IsValid v used,
    refl,
    λ t. lookup-assign txid t (lookup txid f.pending ++ run p.id (p.overflow + 1)) f.pending,
  )

  -- Rolling back a transaction that has freed one page, and nothing before, undoes the freeing.
  pub rollback-free :
      AreUsed p.id (p.overflow + 1) f.cache
      → Lacks txid f.pending
      → rollback txid (free txid p f).1 ≡ f
  unfolding rollback
  rollback-free used fresh =
      let ids = run p.id (p.overflow + 1) in
      let listed : lookup txid (assign txid (lookup txid f.pending ++ ids) f.pending) ≡ ids =
        rw
          (
            lookup-assign txid txid (lookup txid f.pending ++ ids) f.pending,
            lookup-Lacks txid f.pending fresh,
          )
          (ground arith) in
      let cache_eq : unmark_all ids (mark_all ids f.cache) ≡ f.cache = fun_ext (λ j. ground (
        arith,
        unmark_all-eq ids (mark_all ids f.cache) j,
        mark_all-eq ids f.cache j,
        count-run p.id (p.overflow + 1) j,
        used j,
      )) in
      let pending_eq = delete-assign txid (lookup txid f.pending ++ ids) f.pending fresh in
      rw (free-ok used, listed)
        (λ i. record { ids = f.ids; pending = pending_eq i; cache = cache_eq i })
