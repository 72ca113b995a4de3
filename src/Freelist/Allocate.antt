-- ===== src/Freelist/Allocate.antt =====
-- `allocate` takes the first run that is long enough, and nothing else.
use bolt_analysis.Prelude.{
  ◌⊎◌, length_zero, ℕ, zero, suc, ◌+◌, ◌-◌, ◌%◌, ◌≤◌, ◌<◌, ◌≡◌, ◌≢◌, refl, ap, subst, ◌∙◌, sym,
  Bool, false, inl, inr, List, [], ◌∷◌, ◌++◌, arith, bit, ltb, leb, ◌==◌, All, if◌then◌else◌,
  length, take, drop, Bool-cases, ◌&&◌, length-append, take-length_append, drop-length_append,
  All-append_left, All-append_right,
}
use mathlib.Core.List.{append_assoc}
use bolt_analysis.Prelude.Counts.{count, count-append}
use bolt_analysis.Prelude.Results.{ok}
use bolt_analysis.Words.{u64_mod}
use bolt_analysis.Freelist.{
  Freelist, mark, Scan, nothing, found, invalid, scan, unmark_run, take_found, allocate,
}
use bolt_analysis.Freelist.Valid.{IsAbove, IsValid, ids_bounded}
use bolt_analysis.Freelist.Runs.{
  run, length-run, count-run, IsFound, Outcome, HasRun, IsFirst, first, scan-Outcome, scan-IsFirst,
}

unmark_run-eq :
    (n start : ℕ) (cache : ℕ → Bool) (j : ℕ)
    → start + n ≤ u64_mod
    → unmark_run n start cache j ≡ (if leb start j && ltb j (start + n) then false else cache j)
unfolding unmark_run
unmark_run-eq zero start cache j h = ground arith
unmark_run-eq (suc zero) start cache j h = ground arith
unmark_run-eq (suc (suc n)) start cache j h =
    let e : (start + 1) % u64_mod ≡ start + 1 = omega arith in
    rw e
      (ground (arith, unmark_run-eq (suc n) (start + 1) (mark cache start false) j (omega arith)))

IsAbove-le : (lo lo' : ℕ) (xs : List ℕ) → lo ≤ lo' → IsAbove lo' xs → IsAbove lo xs
IsAbove-le lo lo' [] h asc = tt
IsAbove-le lo lo' (x ∷ xs) h asc = (omega arith, asc.1)

IsAbove-right : (lo : ℕ) (xs ys : List ℕ) → IsAbove lo (xs ++ ys) → IsAbove lo ys
IsAbove-right lo [] ys asc = asc
IsAbove-right lo (x ∷ xs) ys asc =
    IsAbove-right lo xs ys (IsAbove-le lo x (xs ++ ys) (omega arith) asc.1)

-- An ascending list ascends without a part of it.
IsAbove-without :
    (lo : ℕ) (xs ys zs : List ℕ) → IsAbove lo (xs ++ (ys ++ zs)) → IsAbove lo (xs ++ zs)
IsAbove-without lo [] ys zs asc = IsAbove-right lo ys zs asc
IsAbove-without lo (x ∷ xs) ys zs asc = (asc.0, IsAbove-without x xs ys zs asc.1)

run_last : (start n m : ℕ) → All (λ id. id < m) (run start n) → 0 < n → start + n ≤ m
run_last start zero m h pos = absurd (omega arith)
run_last start (suc zero) m h pos = omega (arith, h.0)
run_last start (suc (suc n)) m h pos =
    omega (arith, run_last (suc start) (suc n) m h.1 (omega arith))

-- What is left of the ids when a run is cut out by the slices of `allocate`.
cut_run :
    (n i start : ℕ) (ids : List ℕ) (w : IsFound n ids i start)
    → (if i + 1 == n then drop (i + 1) ids else take (i + 1 - n) ids ++ drop (i + 1) ids)
      ≡ w.before ++ w.after
cut_run n i start ids w =
    let after_eq : drop (i + 1) ids ≡ w.after =
      rw (w.whole_eq, ← append_assoc w.before (run start n) w.after)
        (drop-length_append (w.before ++ run start n) w.after
          (omega (arith, w.index, length-append w.before (run start n), length-run start n))) in
    let before_eq : take (i + 1 - n) ids ≡ w.before =
      rw w.whole_eq
        (take-length_append w.before (run start n ++ w.after) (omega (arith, w.index))) in
    elim (Bool-cases (i + 1 == n)) [
      | inl front ↦
          rw (front, after_eq)
            (ap (λ l. l ++ w.after) (sym (length_zero w.before (ground (arith, w.index)))))
      | inr inside ↦ rw (inside, after_eq, before_eq)
    ]

-- `g` is `f` without the pages `start, …, start + n - 1`, which were free.
pub record IsTaken (n start : ℕ) (f g : Freelist) : Type 0 where
  pub no_meta : 1 < start
  pub taken : (id : ℕ) → count id f.ids ≡ count id g.ids + bit (leb start id && ltb id (start + n))
  pub uncached :
      (id : ℕ) → g.cache id ≡ (if leb start id && ltb id (start + n) then false else f.cache id)
  pub same_pending : g.pending ≡ f.pending

module _ (n i start : ℕ) (f : Freelist) (v : IsValid f) (npos : 0 < n)
    (w : IsFound n f.ids i start) where
  found_bound : start + n ≤ u64_mod
  found_bound =
      run_last start n u64_mod
        (All-append_left _ (run start n) w.after (
          All-append_right _ w.before (run start n ++ w.after)
            (subst (All (λ id. id < u64_mod)) w.whole_eq (ids_bounded v))))
        npos

  found-IsTaken : IsTaken n start f (take_found n (found i start) f).1
  unfolding take_found
  found-IsTaken = record {
    no_meta = w.start_pos;
    taken = λ id. rw (cut_run n i start f.ids w) (
        omega (
          arith,
          ap (count id) w.whole_eq,
          count-append id w.before (run start n ++ w.after),
          count-append id (run start n) w.after,
          count-append id w.before w.after,
          count-run start n id,
        ));
    uncached = λ id. unmark_run-eq n start f.cache id found_bound;
    same_pending = refl;
  }

  found-IsValid : IsValid (take_found n (found i start) f).1
  unfolding take_found
  found-IsValid =
      let t = found-IsTaken in
      record {
        ascending = rw (cut_run n i start f.ids w) (
            IsAbove-without 1 w.before (run start n) w.after
              (subst (IsAbove 1) w.whole_eq v.ascending));
        bounded = λ id c. v.bounded id (ground (arith, t.uncached id));
        unique = v.unique;
        metas = (ground (arith, t.uncached 0, v.metas.0), ground (arith, t.uncached 1, v.metas.1));
        counted = λ id. ground (arith, t.taken id, t.uncached id, v.counted id);
      }

module _ (n : ℕ) (f : Freelist) where
  allocate-scan : allocate n f ≡ take_found n (scan n 0 0 0 f.ids) f
  unfolding allocate
  allocate-scan = elim (Bool-cases (length f.ids == 0)) [
    | inl empty ↦
        rw empty
          (ap (λ l. take_found n (scan n 0 0 0 l) f) (sym (length_zero f.ids (ground arith))))
    | inr full ↦ rw full
  ]

  take_found-IsValid :
      (s : Scan) → 0 < n → IsValid f → Outcome n f.ids s → IsValid (take_found n s f).1
  unfolding take_found
  take_found-IsValid nothing npos v o = v
  take_found-IsValid (found i start) npos v o = found-IsValid n i start f v npos o
  take_found-IsValid (invalid id) npos v o = v

  take_found-IsTaken :
      (s : Scan) (start : ℕ)
      → 0 < n
      → IsValid f
      → Outcome n f.ids s
      → (take_found n s f).0 ≡ ok start
      → start ≢ 0
      → IsTaken n start f (take_found n s f).1
  unfolding take_found
  take_found-IsTaken nothing start npos v o e ne = absurd (ground arith)
  take_found-IsTaken (found i initial) start npos v o e ne =
      let same : initial ≡ start = ground arith in
      subst (λ k. IsTaken n k f (take_found n (found i initial) f).1) same
        (found-IsTaken n i initial f v npos o)
  take_found-IsTaken (invalid id) start npos v o e ne = elim o [ ]

  take_found_first :
      (s : Scan) (q : ℕ)
      → Outcome n f.ids s
      → IsFirst q s
      → (start : ℕ) × ((take_found n s f).0 ≡ ok start) × (1 < start) × (start ≤ q)
  take_found_first s q o (first i start le) = (start, unfold take_found in refl, o.start_pos, le)

  scan_lem : 0 < n → IsValid f → Outcome n f.ids (scan n 0 0 0 f.ids)
  scan_lem npos v = scan-Outcome n f.ids npos v.ascending (ids_bounded v)

  -- On a valid freelist and for at least one page, `allocate` leaves a valid freelist.
  pub allocate-IsValid : 0 < n → IsValid f → IsValid (allocate n f).1
  allocate-IsValid npos v =
      rw allocate-scan (take_found-IsValid (scan n 0 0 0 f.ids) npos v (scan_lem npos v))

  -- On a valid freelist, a page id other than 0 that `allocate` returns is past the meta pages and
  -- begins `n` pages that were free, each once: exactly these leave the free ids and the cache, and
  -- the pending ids stay.
  pub allocate-IsTaken :
      (start : ℕ)
      → 0 < n
      → IsValid f
      → (allocate n f).0 ≡ ok start
      → start ≢ 0
      → IsTaken n start f (allocate n f).1
  allocate-IsTaken start npos v =
      rw allocate-scan (take_found-IsTaken (scan n 0 0 0 f.ids) start npos v (scan_lem npos v))

  -- If the free ids of a valid freelist hold `n` consecutive pages from `q` on, `allocate` finds
  -- such pages, from an id that is not above `q`.
  pub allocate_first :
      (q : ℕ)
      → 0 < n
      → IsValid f
      → HasRun q n f.ids
      → (start : ℕ) × ((allocate n f).0 ≡ ok start) × (1 < start) × (start ≤ q)
  allocate_first q npos v h = rw allocate-scan (
      take_found_first (scan n 0 0 0 f.ids) q (scan_lem npos v)
        (scan-IsFirst n q f.ids npos v.ascending (ids_bounded v) h))

  -- If the free ids of a valid freelist hold no `n` consecutive pages, `allocate` returns 0 and
  -- changes nothing.
  pub allocate_none : 0 < n → IsValid f → ((q : ℕ) → ¬ HasRun q n f.ids) → allocate n f ≡ (ok 0, f)
  allocate_none npos v h = allocate-scan ∙ take_found_none (scan n 0 0 0 f.ids) (scan_lem npos v)
    where
      take_found_none : (s : Scan) → Outcome n f.ids s → take_found n s f ≡ (ok 0, f)
      take_found_none nothing o = unfold take_found in refl
      take_found_none (found i start) o = absurd (
          h start (λ j lo hi. ground (
            arith,
            ap (count j) o.whole_eq,
            count-append j o.before (run start n ++ o.after),
            count-append j (run start n) o.after,
            count-run start n j,
          )))
      take_found_none (invalid id) o = elim o [ ]

  take_found-cases :
      (s : Scan)
      → Outcome n f.ids s
      → ((start : ℕ) × ((take_found n s f).0 ≡ ok start) × (1 < start))
        ⊎ (take_found n s f ≡ (ok 0, f))
  unfolding take_found
  take_found-cases nothing o = inr refl
  take_found-cases (found i start) o = inl (start, refl, o.start_pos)
  take_found-cases (invalid id) o = elim o [ ]

  -- On a valid freelist, `allocate` does not panic.
  pub allocate-cases :
      0 < n
      → IsValid f
      → ((start : ℕ) × ((allocate n f).0 ≡ ok start) × (1 < start)) ⊎ (allocate n f ≡ (ok 0, f))
  allocate-cases npos v = rw allocate-scan (take_found-cases (scan n 0 0 0 f.ids) (scan_lem npos v))
