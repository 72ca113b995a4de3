-- ===== src/Freelist/Disk/RoundTrip.antt =====
-- What comes back when a freelist is written to a page and read again.
use bolt_analysis.Prelude.{
  All, if◌then◌else◌, Bool, ap, length-take, take-append_le, take-length_append, length-drop,
  length_zero, ltb, sym, false, take, lt→ltb, inl, inr, ◌==◌, Bool-cases, ◌∙◌, drop, length-append,
  length, ℕ, zero, suc, ◌+◌, ◌-◌, ◌≤◌, ◌<◌, ◌≡◌, refl, arith, List, [], ◌∷◌, ◌++◌,
}
use bolt_analysis.Prelude.Counts.{count as occurs, count-append}
use bolt_analysis.Prelude.Results.{ok}
use bolt_analysis.Words.{u16_max}
use bolt_analysis.GoSort.{sort}
use bolt_analysis.GoSort.Sorted.{
  IsSorted-take, IsSorted, sort-IsSorted, sort-SameItems, length-sort, eq_of_SameItems,
}
use bolt_analysis.Pgids.Union.{mergepgids-eq-sort}
use bolt_analysis.Page.{Page}
use bolt_analysis.Freelist.{freelist_page_flag, Freelist, mark_all, lengths, count, copyall}
use bolt_analysis.Freelist.Disk.{bit_or, reindex, page_ids, read, write, available, reload}
use bolt_analysis.Freelist.TxMap.{Pending, pending_ids}
use bolt_analysis.Freelist.Valid.{IsValid, mark_all-eq, IsSorted-of_IsAbove}
use mathlib.Core.Path.{fun_ext}

-- All free and pending ids, ascending.
abbrev pub all_ids : Freelist → List ℕ
all_ids f = sort (f.ids ++ sort (pending_ids f.pending))

length-pending_ids : (m : Pending) → length (pending_ids m) ≡ lengths m
unfolding lengths
length-pending_ids [] = refl
length-pending_ids ((t, ids) ∷ m) =
    omega (arith, length-append ids (pending_ids m), length-pending_ids m)

occurs-all_ids :
    (f : Freelist) (a : ℕ)
    → occurs a (all_ids f) ≡ occurs a f.ids + occurs a (pending_ids f.pending)
occurs-all_ids f a = omega (
  arith,
  sort-SameItems (f.ids ++ sort (pending_ids f.pending)) a,
  count-append a f.ids (sort (pending_ids f.pending)),
  sort-SameItems (pending_ids f.pending) a,
)

All-available {ℓ} :
    (P : ℕ → Type ℓ) (pcache : ℕ → Bool) (xs : List ℕ) → All P xs → All P (available pcache xs)
unfolding available
All-available P pcache [] h = tt
All-available P pcache (x ∷ xs) h = elim (Bool-cases (pcache x)) [
  | inl out ↦ rw out (All-available P pcache xs h.1)
  | inr left ↦ rw left (h.0, All-available P pcache xs h.1)
]

IsSorted-available :
    (pcache : ℕ → Bool) (xs : List ℕ) → IsSorted xs → IsSorted (available pcache xs)
unfolding available
IsSorted-available pcache [] s = tt
IsSorted-available pcache (x ∷ xs) s = elim (Bool-cases (pcache x)) [
  | inl out ↦ rw out (IsSorted-available pcache xs s.1)
  | inr left ↦ rw left (All-available (λ y. x ≤ y) pcache xs s.0, IsSorted-available pcache xs s.1)
]

occurs-available :
    (pcache : ℕ → Bool) (a : ℕ) (xs : List ℕ)
    → occurs a (available pcache xs) ≡ (if pcache a then 0 else occurs a xs)
unfolding available
occurs-available pcache a [] = ground arith
occurs-available pcache a (x ∷ xs) = elim (Bool-cases (a == x)) [
  | inl same ↦ let e : a ≡ x = ground arith in rw e (ground (arith, occurs-available pcache x xs))
  | inr other ↦ ground (arith, occurs-available pcache a xs)
]

drop-take : (n x : ℕ) (l : List ℕ) → 0 < n → drop 1 (take n (x ∷ l)) ≡ take (n - 1) l
drop-take zero x l h = absurd (omega arith)
drop-take (suc n) x l h = let e : suc n - 1 ≡ n = omega arith in rw e

-- Sorting what is sorted changes nothing.
sort_sorted : (xs : List ℕ) → IsSorted xs → sort xs ≡ xs
sort_sorted xs s = eq_of_SameItems (sort xs) xs (sort-IsSorted xs) s (sort-SameItems xs)

module _ (f : Freelist) (v : IsValid f) where
  length-all_ids : length (all_ids f) ≡ count f
  unfolding count
  length-all_ids = omega (
    arith,
    length-sort (f.ids ++ sort (pending_ids f.pending)),
    length-append f.ids (sort (pending_ids f.pending)),
    length-sort (pending_ids f.pending),
    length-pending_ids f.pending,
  )

  copyall-eq :
      (dst : List ℕ) → count f ≤ length dst → copyall f dst ≡ ok (all_ids f ++ drop (count f) dst)
  unfolding copyall
  copyall-eq dst room =
      let n : length f.ids + length (sort (pending_ids f.pending)) ≡ count f = omega (
        arith,
        length-all_ids,
        length-sort (f.ids ++ sort (pending_ids f.pending)),
        length-append f.ids (sort (pending_ids f.pending)),
      ) in
      mergepgids-eq-sort dst f.ids (sort (pending_ids f.pending))
        (IsSorted-of_IsAbove 1 f.ids v.ascending) (sort-IsSorted (pending_ids f.pending))
      ∙ rw n (ground arith)

  -- A freelist of fewer than 65535 ids fits the count of its page.
  write_small :
      (p : Page)
      → count f < u16_max
      → count f ≤ length p.words
      → (q : Page) × (write f p ≡ ok q) × (q.count ≡ count f) × (take (count f) q.words ≡ all_ids f)
  unfolding write
  write_small p small room = elim (Bool-cases (count f == 0)) [
    | inl empty ↦
        let none_left : count f ≡ 0 = ground arith in
        (
          record p { flags = bit_or p.flags freelist_page_flag; count = 0 },
          rw empty,
          sym none_left,
          rw none_left (sym (length_zero (all_ids f) (length-all_ids ∙ none_left))),
        )
    | inr some_ids ↦ (
      record p {
        flags = bit_or p.flags freelist_page_flag;
        count = count f;
        words = all_ids f ++ drop (count f) p.words;
      },
      rw (some_ids, lt→ltb (count f) u16_max small, copyall-eq p.words room),
      refl,
      take-length_append (all_ids f) (drop (count f) p.words) (sym length-all_ids),
    )
  ]

  -- A larger one has its length in the first word.
  write_large :
      (p : Page)
      → u16_max ≤ count f
      → count f < length p.words
      → (q : Page) × (write f p ≡ ok q)
        × (q.count ≡ u16_max)
        × ((rest : List ℕ) × (q.words ≡ count f ∷ (all_ids f ++ rest)))
  unfolding write
  write_large p large room =
      let some_ids : (count f == 0) ≡ false = ground arith in
      let too_many : ltb (count f) u16_max ≡ false = ground arith in
      (
        record p {
          flags = bit_or p.flags freelist_page_flag;
          count = u16_max;
          words = count f ∷ (all_ids f ++ drop (count f) (drop 1 p.words));
        },
        rw (some_ids, too_many, copyall-eq (drop 1 p.words) (omega (arith, length-drop 1 p.words))),
        refl,
        (drop (count f) (drop 1 p.words), refl),
      )

  page_ids_small :
      (q : Page)
      → count f < u16_max
      → q.count ≡ count f
      → take (count f) q.words ≡ all_ids f
      → page_ids q ≡ all_ids f
  unfolding page_ids
  page_ids_small q small counted listed =
      let fits : (q.count == u16_max) ≡ false = ground arith in
      elim (Bool-cases (q.count == 0)) [
        | inl empty ↦
            rw (fits, empty) (sym (length_zero (all_ids f) (ground (arith, length-all_ids))))
        | inr some_ids ↦
            rw (fits, some_ids, counted, listed)
              (sort_sorted (all_ids f) (sort-IsSorted (f.ids ++ sort (pending_ids f.pending))))
      ]

  -- A valid freelist of fewer than 65535 ids, written to a page with room for them and read again,
  -- has all its free and pending ids as free ids, in ascending order.
  pub read-write :
      (p : Page) (g : Freelist)
      → count f < u16_max
      → count f ≤ length p.words
      → (q : Page) × (write f p ≡ ok q)
        × ((read q g).ids ≡ sort (f.ids ++ sort (pending_ids f.pending)))
  read-write p g small room =
      let (q, written, counted, listed) = write_small p small room in
      (q, written, unfold read in page_ids_small q small counted listed)

  page_ids_large :
      (q : Page) (rest : List ℕ)
      → u16_max ≤ count f
      → q.count ≡ u16_max
      → q.words ≡ count f ∷ (all_ids f ++ rest)
      → page_ids q ≡ take (count f - 1) (all_ids f)
  unfolding page_ids
  page_ids_large q rest large counted listed =
      let some_ids : (count f == 0) ≡ false = ground arith in
      let fewer : count f - 1 ≤ length (all_ids f) = omega (arith, length-all_ids) in
      rw
        (
          counted,
          listed,
          some_ids,
          drop-take (count f) (count f) (all_ids f ++ rest) (omega arith),
          take-append_le (count f - 1) (all_ids f) rest fewer,
        )
        (sort_sorted (take (count f - 1) (all_ids f)) (
          IsSorted-take (count f - 1) (all_ids f)
            (sort-IsSorted (f.ids ++ sort (pending_ids f.pending)))))

  -- A valid freelist of 65535 ids or more, written and read again, has all its free and pending
  -- ids but the largest: one page is lost.
  pub read-write_large :
      (p : Page) (g : Freelist)
      → u16_max ≤ count f
      → count f < length p.words
      → (q : Page) × (write f p ≡ ok q)
        × ((read q g).ids ≡ take (count f - 1) (sort (f.ids ++ sort (pending_ids f.pending))))
        × (length (read q g).ids + 1 ≡ count f)
  read-write_large p g large room =
      let (q, written, counted, (rest, listed)) = write_large p large room in
      let ids = page_ids_large q rest large counted listed in
      (
        q,
        written,
        unfold read in ids,
        unfold read in
            rw ids (omega (arith, length-take (count f - 1) (all_ids f), length-all_ids)),
      )

  -- What is not pending of all ids is free.
  available-all_ids : available (mark_all (pending_ids f.pending) (λ _. false)) (all_ids f) ≡ f.ids
  available-all_ids =
      let pcache = mark_all (pending_ids f.pending) (λ _. false) in
      eq_of_SameItems (available pcache (all_ids f)) f.ids
        (IsSorted-available pcache (all_ids f)
          (sort-IsSorted (f.ids ++ sort (pending_ids f.pending))))
        (IsSorted-of_IsAbove 1 f.ids v.ascending)
        (λ a. ground (
          arith,
          occurs-available pcache a (all_ids f),
          mark_all-eq (pending_ids f.pending) (λ _. false) a,
          occurs-all_ids f a,
          v.counted a,
        ))

  cache_eq : mark_all (pending_ids f.pending) (mark_all f.ids (λ _. false)) ≡ f.cache
  cache_eq = fun_ext (λ a. ground (
    arith,
    mark_all-eq (pending_ids f.pending) (mark_all f.ids (λ _. false)) a,
    mark_all-eq f.ids (λ _. false) a,
    v.counted a,
  ))

  -- A valid freelist of fewer than 65535 ids, written to a page with room for them, is what
  -- `reload` makes of that page.
  pub reload-write :
      (p : Page)
      → count f < u16_max
      → count f ≤ length p.words
      → (q : Page) × (write f p ≡ ok q) × (reload q f ≡ f)
  unfolding reload reindex
  reload-write p small room =
      let (q, written, counted, listed) = write_small p small room in
      let pcache = mark_all (pending_ids f.pending) (λ _. false) in
      let ids_eq : available pcache (page_ids q) ≡ f.ids =
        rw (page_ids_small q small counted listed) available-all_ids in
      (
        q,
        written,
        λ i. record {
          ids = ids_eq i;
          pending = f.pending;
          cache =
              (ap (λ l. mark_all (pending_ids f.pending) (mark_all l (λ _. false))) ids_eq
                  ∙ cache_eq)
                i;
        },
      )
