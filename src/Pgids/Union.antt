-- ===== src/Pgids/Union.antt =====
-- What `mergepgids` and `merge` return, on every branch.
use bolt_analysis.Prelude.{
  ℕ, zero, suc, ◌+◌, ◌≡◌, refl, ◌∙◌, ap, inl, inr, List, [], ◌∷◌, ◌++◌, arith, ltb, if◌then◌else◌,
  Bool-cases, length, drop, take_all, drop_all, true, ◌≤◌,
}
use mathlib.Core.List.{append-nil}
use bolt_analysis.Prelude.Counts.{SameItems}
use bolt_analysis.Prelude.Results.{ok, err}
use bolt_analysis.Panics.{merge_bad_len}
use bolt_analysis.GoSort.{sort}
use bolt_analysis.GoSort.Sorted.{IsSorted, sort-SameItems, sort-IsSorted, eq_of_SameItems}
use bolt_analysis.Pgids.{merge_ids, copy, zeros, mergepgids, merge}
use bolt_analysis.Pgids.Merge.{IsMerge, IsMerge-nil, nil-IsMerge, IsMerge-swap, merge_loop-IsMerge}

merge_ids-IsMerge :
    (x : ℕ) (xs : List ℕ) (y : ℕ) (ys : List ℕ)
    → (out : List ℕ) × (merge_ids (x ∷ xs) (y ∷ ys) ≡ ok out) × IsMerge (x ∷ xs) (y ∷ ys) out
unfolding merge_ids
merge_ids-IsMerge x xs y ys = elim (Bool-cases (ltb y x)) [
  | inl b_first ↦
      let (out, e, m) =
        merge_loop-IsMerge (suc (length xs) + suc (length ys)) (y ∷ ys) (x ∷ xs) [] (ground arith)
          (omega arith) in
      (out, rw b_first e, IsMerge-swap (y ∷ ys) (x ∷ xs) out m)
  | inr a_first ↦
      let (out, e, m) =
        merge_loop-IsMerge (suc (length xs) + suc (length ys)) (x ∷ xs) (y ∷ ys) [] (ground arith)
          (omega arith) in
      (out, rw a_first e, m)
]

-- Both functions return a merge of their lists; `merge` never panics, and `mergepgids` only if
-- `dst` is too short.
pub mergepgids-IsMerge :
    (dst a b : List ℕ)
    → length a + length b ≤ length dst
    → (out : List ℕ) × (mergepgids dst a b ≡ ok (copy dst out)) × IsMerge a b out
unfolding mergepgids
mergepgids-IsMerge dst [] b h = (b, ground arith, nil-IsMerge b)
mergepgids-IsMerge dst (x ∷ xs) [] h = (x ∷ xs, ground arith, IsMerge-nil (x ∷ xs))
mergepgids-IsMerge dst (x ∷ xs) (y ∷ ys) h =
    let (out, e, m) = merge_ids-IsMerge x xs y ys in (out, ground (arith, e), m)

pub length-zeros : (n : ℕ) → length (zeros n) ≡ n
length-zeros zero = refl
length-zeros (suc n) = ap suc (length-zeros n)

copy-zeros : (n : ℕ) (out : List ℕ) → length out ≡ n → copy (zeros n) out ≡ out
copy-zeros n out e =
    rw
      (
        take_all (length (zeros n)) out (omega (arith, length-zeros n)),
        drop_all (length out) (zeros n) (omega (arith, length-zeros n)),
      )
      (append-nil out)

pub merge-IsMerge : (a b : List ℕ) → (out : List ℕ) × (merge a b ≡ ok out) × IsMerge a b out
unfolding merge
merge-IsMerge [] b = (b, refl, nil-IsMerge b)
merge-IsMerge (x ∷ xs) [] = (x ∷ xs, ground arith, IsMerge-nil (x ∷ xs))
merge-IsMerge (x ∷ xs) (y ∷ ys) =
    let n = length (x ∷ xs) + length (y ∷ ys) in
    let (out, e, m) =
      mergepgids-IsMerge (zeros n) (x ∷ xs) (y ∷ ys) (omega (arith, length-zeros n)) in
    (out, ground (arith, e) ∙ ap ok (copy-zeros n out m.len), m)

IsMerge-eq-sort :
    (a b out : List ℕ) → IsMerge a b out → IsSorted a → IsSorted b → out ≡ sort (a ++ b)
IsMerge-eq-sort a b out m sa sb =
    eq_of_SameItems out (sort (a ++ b)) (m.sorted sa sb) (sort-IsSorted (a ++ b))
      (λ k. omega (arith, m.same k, sort-SameItems (a ++ b) k))

-- `merge` of two lists in any order returns, without a panic, a list of all their ids and no others.
pub merge-SameItems :
    (a b : List ℕ) → (out : List ℕ) × (merge a b ≡ ok out) × SameItems out (a ++ b)
merge-SameItems a b = let (out, e, m) = merge-IsMerge a b in (out, e, m.same)

-- `merge` of two ascending lists returns their concatenation, sorted.
pub merge-eq-sort : (a b : List ℕ) → IsSorted a → IsSorted b → merge a b ≡ ok (sort (a ++ b))
merge-eq-sort a b sa sb =
    let (out, e, m) = merge-IsMerge a b in e ∙ ap ok (IsMerge-eq-sort a b out m sa sb)

mergepgids_short :
    (dst a b : List ℕ)
    → ltb (length dst) (length a + length b) ≡ true
    → mergepgids dst a b ≡ err merge_bad_len
unfolding mergepgids
mergepgids_short dst a b h = rw h

copy-IsMerge :
    (dst a b out : List ℕ)
    → IsMerge a b out
    → length a + length b ≤ length dst
    → copy dst out ≡ out ++ drop (length a + length b) dst
copy-IsMerge dst a b out m h = rw (take_all (length dst) out (omega (arith, m.len)), m.len)

-- `mergepgids` of two ascending lists panics if `dst` is too short, and otherwise puts their
-- sorted concatenation at the front of `dst` and leaves the rest of `dst` alone.
pub mergepgids-eq-sort :
    (dst a b : List ℕ)
    → IsSorted a
    → IsSorted b
    → mergepgids dst a b ≡ (
        if ltb (length dst) (length a + length b)
        then err merge_bad_len
        else ok (sort (a ++ b) ++ drop (length a + length b) dst))
mergepgids-eq-sort dst a b sa sb = elim (Bool-cases (ltb (length dst) (length a + length b))) [
  | inl short ↦ rw short (mergepgids_short dst a b short)
  | inr room ↦
      let (out, e, m) = mergepgids-IsMerge dst a b (ground arith) in
      rw room (
        e
        ∙ ap ok (
            copy-IsMerge dst a b out m (ground arith)
            ∙ ap (λ l. l ++ drop (length a + length b) dst) (IsMerge-eq-sort a b out m sa sb)))
]
