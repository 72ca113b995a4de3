-- ===== src/Cursor/Search/Choice.antt =====
-- The child that a search goes down to: the last one whose key is not above the key, or the first.
use bolt_analysis.Prelude.{
  All-get_or, ap₂, subst, ◌⊎◌, ℕ, zero, suc, ◌+◌, ◌/◌, ◌≤◌, ◌<◌, ◌≡◌, refl, sym, ap, ◌∙◌, arith,
  Bool-cases, Bool, true, false, not, inl, inr, List, [], ◌∷◌, ltb, ◌||◌, if◌then◌else◌, length,
  get_or,
}
use Prim.Native.Nat.{Ordering}
use bolt_analysis.Bytes.{
  le_less_trans, Bytes, compare_bytes, less, equal, compare_bytes_flip, equal_iff,
}
use bolt_analysis.GoSort.{search_loop, search}
use bolt_analysis.Node.{Inode, empty_inode, search_key}
use bolt_analysis.Cursor.Tree.{not_both}
use bolt_analysis.Node.Keys.{IsAscending, place, missing, search_key-place}
use bolt_analysis.Cursor.Search.{exact_loop, step_back, branch_index, is_eq, is_lt}

eq-of_is_eq : (o : Ordering) → is_eq o ≡ true → o ≡ Ordering.eq
eq-of_is_eq Ordering.lt h = cc
eq-of_is_eq Ordering.eq h = refl
eq-of_is_eq Ordering.gt h = cc

or_cases : (a b : Bool) → (a || b) ≡ true → (a ≡ true) ⊎ (b ≡ true)
or_cases true b h = inl refl
or_cases false b h = inr h

or_left : (a b : Bool) → a ≡ true → (a || b) ≡ true
or_left true b h = refl
or_left false b h = cc

or_eq : (a : Bool) (o : Ordering) → o ≡ Ordering.eq → (a || is_eq o) ≡ true
or_eq true o h = refl
or_eq false o h = rw h

module _ (cmp : ℕ → Ordering) where
  exact_loop-index :
      (fuel i j : ℕ) (exact : Bool)
      → (exact_loop fuel i j cmp exact).0 ≡ search_loop fuel i j (λ h. not (is_lt (cmp h)))
  unfolding exact_loop search_loop
  exact_loop-index zero i j exact = refl
  exact_loop-index (suc fuel) i j exact = elim (Bool-cases (ltb i j)) [
    | inl more ↦ elim (Bool-cases (is_lt (cmp ((i + j) / 2)))) [
      | inl low ↦
          rw (more, low)
            (exact_loop-index fuel ((i + j) / 2 + 1) j (exact || is_eq (cmp ((i + j) / 2))))
      | inr high ↦
          rw (more, high)
            (exact_loop-index fuel i ((i + j) / 2) (exact || is_eq (cmp ((i + j) / 2))))
    ]
    | inr done ↦ rw done
  ]

  -- When `exact` is set, and what it says at the end.
  exact_loop-found :
      (fuel i j : ℕ) (exact : Bool) (n : ℕ)
      → j ≤ n
      → (exact ≡ true → (h : ℕ) × (h < n) × (cmp h ≡ Ordering.eq))
      → (exact_loop fuel i j cmp exact).1 ≡ true
      → (h : ℕ) × (h < n) × (cmp h ≡ Ordering.eq)
  unfolding exact_loop
  exact_loop-found zero i j exact n le had e = had e
  exact_loop-found (suc fuel) i j exact n le had e = elim (Bool-cases (ltb i j)) [
    | inl more ↦
        let had' : (exact || is_eq (cmp ((i + j) / 2))) ≡ true
            → (h : ℕ) × (h < n) × (cmp h ≡ Ordering.eq) =
          λ set. elim (or_cases exact (is_eq (cmp ((i + j) / 2))) set) [
            | inl old ↦ had old
            | inr here ↦ ((i + j) / 2, ground arith, eq-of_is_eq (cmp ((i + j) / 2)) here)
          ] in
        elim (Bool-cases (is_lt (cmp ((i + j) / 2)))) [
          | inl low ↦ exact_loop-found fuel ((i + j) / 2 + 1) j _ n le had' (rw (more, low) at e)
          | inr high ↦
              exact_loop-found fuel i ((i + j) / 2) _ n (ground arith) had' (rw (more, high) at e)
        ]
    | inr done ↦ had (rw done at e)
  ]

  exact_loop-set :
      (fuel i j : ℕ) (exact : Bool) (n : ℕ)
      → i ≤ j
      → j ≤ n
      → j ≤ i + fuel
      → (j < n → cmp j ≡ Ordering.eq → exact ≡ true)
      → (exact_loop fuel i j cmp exact).0 < n
      → cmp (exact_loop fuel i j cmp exact).0 ≡ Ordering.eq
      → (exact_loop fuel i j cmp exact).1 ≡ true
  unfolding exact_loop
  exact_loop-set zero i j exact n ij le room had lt e =
      let same : i ≡ j = omega arith in had (omega arith) (subst (λ k. cmp k ≡ Ordering.eq) same e)
  exact_loop-set (suc fuel) i j exact n ij le room had lt e = elim (Bool-cases (ltb i j)) [
    | inl more ↦ elim (Bool-cases (is_lt (cmp ((i + j) / 2)))) [
      | inl low ↦
          rw (more, low)
            (exact_loop-set fuel ((i + j) / 2 + 1) j _ n (ground arith) le (ground arith)
              (λ inside equal_there. or_left exact _ (had inside equal_there))
              (rw (more, low) at lt) (rw (more, low) at e))
      | inr high ↦
          rw (more, high)
            (exact_loop-set fuel i ((i + j) / 2) _ n (ground arith) (ground arith) (ground arith)
              (λ inside equal_there. or_eq exact (cmp ((i + j) / 2)) equal_there)
              (rw (more, high) at lt) (rw (more, high) at e))
    ]
    | inr done ↦
        let same : i ≡ j = ground arith in
        let inside : i < n = rw done at lt in
        rw done (had (omega arith) (subst (λ k. cmp k ≡ Ordering.eq) same (rw done at e)))
  ]

-- The child, by a scan: the last one with a key that is not above `key`, or the first.
abbrev pub child_pos : Bytes → List Inode → ℕ
child_pos key [] = 0
child_pos key (e ∷ []) = 0
child_pos key (e ∷ e' ∷ es) = if less key e'.key then 0 else suc (child_pos key (e' ∷ es))

stepped : Bytes → List Inode → ℕ
unfolding step_back
stepped key es = step_back (place key es, not (missing key es))

stepped-child_pos :
    (key : Bytes) (es : List Inode) → IsAscending es → stepped key es ≡ child_pos key es
unfolding stepped missing
stepped-child_pos key [] s = ground arith
stepped-child_pos key (e ∷ []) s = ground arith
stepped-child_pos key (e ∷ e' ∷ es) s =
    let ih = stepped-child_pos key (e' ∷ es) s.1 in
    elim (Bool-cases (less e.key key)) [
      | inl below ↦ rw below (ground (arith, ih, compare_bytes_flip key e'.key))
      | inr above ↦
          let next = le_less_trans key e.key e'.key above s.0.0 in rw (above, next) (ground arith)
    ]

present :
    (key : Bytes) (es : List Inode) (h : ℕ)
    → IsAscending es
    → h < length es
    → equal (get_or es h empty_inode).key key ≡ true
    → missing key es ≡ false
unfolding missing
present key [] h s lt e = absurd (omega arith)
present key (x ∷ xs) zero s lt e = ground arith
present key (x ∷ xs) (suc h) s lt e =
    let above = All-get_or (λ y. less x.key y.key ≡ true) xs h empty_inode s.0 (omega arith) in
    let below : less x.key key ≡ true =
      subst (λ k. less x.key k ≡ true) ((equal_iff (get_or xs h empty_inode).key key).0 e) above in
    rw below (ground (arith, present key xs h s.1 (omega arith) e))

found_at :
    (key : Bytes) (es : List Inode)
    → missing key es ≡ false
    → (place key es < length es)
      × (compare_bytes (get_or es (place key es) empty_inode).key key ≡ Ordering.eq)
unfolding missing
found_at key es e = (ground arith, eq-of_is_eq _ (ground arith))

-- On ascending keys, the binary search of a branch with its flag `exact` and its step back gives the
-- index of the last element whose key is not above the key, or of the first element.
pub branch_index-child_pos :
    (key : Bytes) (es : List Inode) → IsAscending es → branch_index es key ≡ child_pos key es
unfolding branch_index search_loop search_key search stepped
branch_index-child_pos key es s =
    let cmp : ℕ → Ordering = λ i. compare_bytes (get_or es i empty_inode).key key in
    let n = length es in
    let at : (exact_loop n 0 n cmp false).0 ≡ place key es =
      exact_loop-index cmp n 0 n false ∙ search_key-place key es s in
    let set : (exact_loop n 0 n cmp false).1 ≡ not (missing key es) =
      elim (Bool-cases (exact_loop n 0 n cmp false).1) [
        | inl hit ↦
            let (h, inside, same) =
              exact_loop-found cmp n 0 n false n (omega arith) (λ e. cc) hit in
            hit ∙ sym (ap not (present key es h s inside (ap is_eq same)))
        | inr miss ↦ elim (Bool-cases (missing key es)) [
          | inl gone ↦ miss ∙ sym (ap not gone)
          | inr there ↦
              let (inside, same) = found_at key es there in
              let hit =
                exact_loop-set cmp n 0 n false n (omega arith) (omega arith) (omega arith)
                  (λ lt e. absurd (omega arith)) (rw at inside)
                  (subst (λ i. cmp i ≡ Ordering.eq) (sym at) same) in
              absurd (not_both _ miss hit)
        ]
      ] in
    ap₂ (λ i x. step_back (i, x)) at set ∙ stepped-child_pos key es s
