-- ===== src/Pgids/Merge.antt =====
-- `mergepgids` ends, loses and invents no id, and merges ascending lists into an ascending one.
use bolt_analysis.Prelude.{
  ℕ, zero, suc, ◌+◌, ◌≤◌, ◌<◌, ◌≡◌, refl, sym, ◌∙◌, ap, inl, inr, Bool, true, List, [], ◌∷◌, ◌++◌,
  arith, ltb, leb, Bool-cases, length, get_or, take, drop, All, All-mono, All-append, length-append,
  length-drop, length-take-drop, drop-get_or, drop_all, leb→le,
}
use mathlib.Core.List.{append_assoc, append-nil}
use bolt_analysis.Prelude.Counts.{SameItems, count-append, count-take-drop, All-SameItems}
use bolt_analysis.Prelude.Results.{ok}
use bolt_analysis.GoSort.Search.{search_lem, position, IsCut, search-position}
use bolt_analysis.GoSort.Sorted.{IsSorted-take, IsSorted}
use bolt_analysis.Pgids.{ahead, merge_loop}

-- The smaller of two heads leads.
abbrev pub Leads : List ℕ → List ℕ → Type 0
Leads (x ∷ xs) (y ∷ ys) = x ≤ y
Leads _ _ = ⊥

-- The merged ids of two lists: nothing is lost or invented, and order is kept.
pub record IsMerge (a b out : List ℕ) : Type 0 where
  pub same : SameItems out (a ++ b)
  pub len : length out ≡ length a + length b
  pub sorted : IsSorted a → IsSorted b → IsSorted out

above : ℕ → ℕ → Bool
above y z = ltb y z

IsSorted-IsCut : (y : ℕ) (xs : List ℕ) → IsSorted xs → IsCut (λ z. ltb y z) xs
IsSorted-IsCut y [] s = tt
IsSorted-IsCut y (x ∷ xs) s = (
  λ h. All-mono (λ z. x ≤ z) (λ z. ltb y z ≡ true) xs (λ z le. ground arith) s.0,
  IsSorted-IsCut y xs s.1,
)

take-le : (y : ℕ) (xs : List ℕ) → All (λ z. z ≤ y) (take (position (λ z. ltb y z) xs) xs)
take-le y [] = tt
take-le y (x ∷ xs) = elim (Bool-cases (ltb y x)) [
  | inl h ↦ rw h tt
  | inr h ↦ rw h (ground arith, take-le y xs)
]

drop-gt :
    (y : ℕ) (xs : List ℕ) → IsSorted xs → All (λ z. y ≤ z) (drop (position (λ z. ltb y z) xs) xs)
drop-gt y [] s = tt
drop-gt y (x ∷ xs) s = elim (Bool-cases (ltb y x)) [
  | inl h ↦ rw h (ground arith, All-mono (λ z. x ≤ z) (λ z. y ≤ z) xs (λ z le. ground arith) s.0)
  | inr h ↦ rw h (drop-gt y xs s.1)
]

IsSorted-drop : (n : ℕ) (xs : List ℕ) → IsSorted xs → IsSorted (drop n xs)
IsSorted-drop zero xs s = s
IsSorted-drop (suc n) [] s = tt
IsSorted-drop (suc n) (x ∷ xs) s = IsSorted-drop n xs s.1

IsSorted-append :
    (y : ℕ) (xs ys : List ℕ)
    → IsSorted xs
    → All (λ z. z ≤ y) xs
    → IsSorted ys
    → All (λ z. y ≤ z) ys
    → IsSorted (xs ++ ys)
IsSorted-append y [] ys sx below sy above = sy
IsSorted-append y (x ∷ xs) ys sx below sy above = (
  All-append (λ z. x ≤ z) xs ys sx.0
      (All-mono (λ z. y ≤ z) (λ z. x ≤ z) ys (λ z h. omega arith) above),
  IsSorted-append y xs ys sx.1 below.1 sy above,
)

pub IsMerge-nil : (a : List ℕ) → IsMerge a [] a
IsMerge-nil a = record { same = λ k. rw append-nil; len = omega arith; sorted = λ s _. s }

pub nil-IsMerge : (b : List ℕ) → IsMerge [] b b
nil-IsMerge b = record { same = λ k. refl; len = omega arith; sorted = λ _ s. s }

pub IsMerge-swap : (a b out : List ℕ) → IsMerge a b out → IsMerge b a out
IsMerge-swap a b out m = record {
  same = λ k. omega (arith, m.same k, count-append k a b, count-append k b a);
  len = omega (arith, m.len);
  sorted = λ sb sa. m.sorted sa sb;
}

-- One round: what is taken from the lead is at most `y`, and what follows is not below it.
module _ (y : ℕ) (lead : List ℕ) where
  ahead-pos : (x : ℕ) (xs : List ℕ) → lead ≡ x ∷ xs → x ≤ y → 0 < ahead lead y
  unfolding ahead
  ahead-pos x xs e le =
      let turn = search_lem (length lead) (λ i. ltb y (get_or lead i 0)) in
      ground (arith, turn.at, e, ap length e, ap (λ (l : List ℕ). get_or l 0 0) e)

  Leads-drop :
      (ys : List ℕ) → ahead lead y < length lead → Leads (y ∷ ys) (drop (ahead lead y) lead)
  unfolding ahead
  Leads-drop ys h =
      let turn = search_lem (length lead) (λ i. ltb y (get_or lead i 0)) in
      rw (drop-get_or (ahead lead y) lead 0 h) (ground (arith, turn.at h))

  -- Over an ascending lead, exactly the ids up to `y` are taken.
  ahead-position : IsSorted lead → ahead lead y ≡ position (λ z. ltb y z) lead
  unfolding ahead
  ahead-position s = search-position (λ z. ltb y z) 0 lead (IsSorted-IsCut y lead s)

  -- What a round puts in front of a merge of the rest is a merge of the whole.
  IsMerge-round :
      (ys out : List ℕ)
      → IsMerge (y ∷ ys) (drop (ahead lead y) lead) out
      → IsMerge lead (y ∷ ys) (take (ahead lead y) lead ++ out)
  IsMerge-round ys out m =
      let n = ahead lead y in
      record {
        same = λ a. omega (
          arith,
          count-append a (take n lead) out,
          m.same a,
          count-append a (y ∷ ys) (drop n lead),
          count-append a lead (y ∷ ys),
          count-take-drop a n lead,
        );
        len = omega (arith, length-append (take n lead) out, m.len, length-take-drop n lead);
        sorted = λ sl sf.
            let e = ahead-position sl in
            IsSorted-append y (take n lead) out (IsSorted-take n lead sl) (rw e (take-le y lead))
              (m.sorted sf (IsSorted-drop n lead sl))
              (All-SameItems (λ z. y ≤ z) ((y ∷ ys) ++ drop n lead) out (λ a. sym (m.same a))
                (All-append (λ z. y ≤ z) (y ∷ ys) (drop n lead) (omega arith, sf.0)
                  (rw e (drop-gt y lead sl))));
      }

  -- The round that takes the whole lead.
  IsMerge-last :
      (ys : List ℕ)
      → length lead ≤ ahead lead y
      → IsMerge lead (y ∷ ys) (take (ahead lead y) lead ++ y ∷ ys)
  IsMerge-last ys h =
      IsMerge-round ys (y ∷ ys) (rw (drop_all (ahead lead y) lead h) (IsMerge-nil (y ∷ ys)))

-- The loop ends within its rounds, without a panic.
pub merge_loop-IsMerge :
    (fuel : ℕ) (lead follow merged : List ℕ)
    → Leads lead follow
    → length lead + length follow ≤ fuel
    → (out : List ℕ) × (merge_loop fuel lead follow merged ≡ ok (merged ++ out))
      × IsMerge lead follow out
unfolding merge_loop
merge_loop-IsMerge fuel [] follow merged l h = elim l [ ]
merge_loop-IsMerge fuel (x ∷ xs) [] merged l h = elim l [ ]
merge_loop-IsMerge zero (x ∷ xs) (y ∷ ys) merged l h = absurd (omega arith)
merge_loop-IsMerge (suc fuel) (x ∷ xs) (y ∷ ys) merged l h =
    let lead = x ∷ xs in
    let n = ahead lead y in
    elim (Bool-cases (leb (length lead) n)) [
      | inl all ↦ (
        take n lead ++ y ∷ ys,
        rw all (ap ok (append_assoc merged (take n lead) (y ∷ ys))),
        IsMerge-last y lead ys (leb→le (length lead) n all),
      )
      | inr some_left ↦
          let (out, e, m) =
            merge_loop-IsMerge fuel (y ∷ ys) (drop n lead) (merged ++ take n lead)
              (Leads-drop y lead ys (ground arith))
              (omega (
                arith,
                length-take-drop n lead,
                length-drop n lead,
                ahead-pos y lead x xs refl l,
              )) in
          (
            take n lead ++ out,
            rw some_left (e ∙ ap ok (append_assoc merged (take n lead) out)),
            IsMerge-round y lead ys out m,
          )
    ]
