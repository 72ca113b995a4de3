-- ===== src/Freelist/Runs.antt =====
-- Runs of consecutive page ids, and what the loop of `allocate` finds.
use bolt_analysis.Prelude.{
  ℕ, zero, suc, ◌+◌, ◌-◌, ◌≤◌, ◌<◌, ◌≡◌, refl, ap, ◌∙◌, sym, false, ◌⊎◌, inl, inr, List, [], ◌∷◌,
  ◌++◌, arith, bit, ltb, leb, ◌==◌, All, length-append, if◌then◌else◌, length, Bool-cases, leb→le,
  subst, ◌&&◌,
}
use mathlib.Core.List.{append_assoc}
use bolt_analysis.Prelude.Counts.{count, count-append}
use bolt_analysis.Words.{u64_mod}
use bolt_analysis.Freelist.{Scan, nothing, found, invalid, scan}
use bolt_analysis.Freelist.Valid.{IsAbove}

-- start, start + 1, …: `n` ids
abbrev pub run : ℕ → ℕ → List ℕ
run start zero = []
run start (suc n) = start ∷ run (suc start) n

pub length-run : (start n : ℕ) → length (run start n) ≡ n
length-run start zero = refl
length-run start (suc n) = ap suc (length-run (suc start) n)

pub run-snoc : (start n : ℕ) → run start n ++ (start + n) ∷ [] ≡ run start (suc n)
run-snoc start zero = ap (λ (m : ℕ). m ∷ []) (omega arith)
run-snoc start (suc n) =
    let e : start + suc n ≡ suc start + n = omega arith in
    rw e (ap (◌∷◌ start) (run-snoc (suc start) n))

-- What is found: a run of `n` ids that ends at index `i` of the whole list.
pub record IsFound (n : ℕ) (whole : List ℕ) (i start : ℕ) : Type 0 where
  pub before : List ℕ
  pub after : List ℕ
  pub whole_eq : whole ≡ before ++ (run start n ++ after)
  pub index : i + 1 ≡ length before + n
  pub start_pos : 1 < start

-- The outcome of the loop over `whole`, for a request of `n` pages.
abbrev pub Outcome : ℕ → List ℕ → Scan → Type 0
Outcome n whole nothing = Unit
Outcome n whole (found i start) = IsFound n whole i start
Outcome n whole (invalid id) = ⊥

-- One round of the loop at an id that goes on with the run.
scan_next :
    (n i initial previd x : ℕ) (xs : List ℕ)
    → 1 < initial
    → initial ≤ previd
    → x ≡ previd + 1
    → x < u64_mod
    → scan n i initial previd (x ∷ xs)
      ≡ (if x + 1 - initial == n then found i initial else scan n (i + 1) initial x xs)
unfolding scan
scan_next n i initial previd x xs pos le e w = ground arith

-- One round at an id that begins a run.
scan_gap :
    (n i initial previd x : ℕ) (xs : List ℕ)
    → 1 < x
    → (previd ≡ 0) ⊎ (previd + 1 < x)
    → x < u64_mod
    → scan n i initial previd (x ∷ xs) ≡ (if 1 == n then found i x else scan n (i + 1) x x xs)
unfolding scan
scan_gap n i initial previd x xs pos gap w = ground arith

run-grow : (start n : ℕ) (xs : List ℕ) → run start n ++ (start + n) ∷ xs ≡ run start (suc n) ++ xs
run-grow start n xs =
    sym (append_assoc (run start n) ((start + n) ∷ []) xs) ∙ ap (λ l. l ++ xs) (run-snoc start n)

-- The loop inside a run: `pre` and then the run of `k` ids up to `previd` are behind it.
scan-Outcome_inside :
    (n i initial previd k : ℕ) (pre xs : List ℕ)
    → 1 < initial
    → 0 < k
    → k < n
    → previd + 1 ≡ initial + k
    → i ≡ length pre + k
    → IsAbove previd xs
    → All (λ id. id < u64_mod) xs
    → Outcome n (pre ++ (run initial k ++ xs)) (scan n i initial previd xs)
scan-Outcome_inside n i initial previd k pre [] pos kpos kn pe ie asc w = unfold scan in tt
scan-Outcome_inside n i initial previd k pre (x ∷ xs) pos kpos kn pe ie asc w =
    elim (Bool-cases (x == previd + 1)) [
      | inl next ↦
          let xe : x ≡ initial + k = ground arith in
          let grown : pre ++ (run initial k ++ x ∷ xs) ≡ pre ++ (run initial (suc k) ++ xs) =
            rw xe (ap (λ l. pre ++ l) (run-grow initial k xs)) in
          rw (scan_next n i initial previd x xs pos (omega arith) (ground arith) w.0)
            (elim (Bool-cases (x + 1 - initial == n)) [
              | inl hit ↦ rw hit (record {
                before = pre;
                after = xs;
                whole_eq =
                    let ne : suc k ≡ n = ground arith in
                    grown ∙ ap (λ m. pre ++ (run initial m ++ xs)) ne;
                index = ground arith;
                start_pos = pos;
              })
              | inr miss ↦ rw miss (
                  rw grown (
                    scan-Outcome_inside n (i + 1) initial x (suc k) pre xs pos (omega arith)
                      (ground arith) (omega arith) (omega arith) asc.1 w.1))
            ])
      | inr gap ↦
          let e : pre ++ (run initial k ++ x ∷ xs) ≡ (pre ++ run initial k) ++ (run x 1 ++ xs) =
            sym (append_assoc pre (run initial k) (x ∷ xs)) in
          let not_one : (1 == n) ≡ false = ground arith in
          rw (scan_gap n i initial previd x xs (ground arith) (inr (ground arith)) w.0) (
            rw not_one (
              rw e (
                scan-Outcome_inside n (i + 1) x x 1 (pre ++ run initial k) xs (ground arith)
                  (omega arith) (ground arith) (omega arith)
                  (omega (arith, length-append pre (run initial k), length-run initial k)) asc.1
                  w.1)))
    ]

-- The loop from its start.
pub scan-Outcome :
    (n : ℕ) (xs : List ℕ)
    → 0 < n
    → IsAbove 1 xs
    → All (λ id. id < u64_mod) xs
    → Outcome n xs (scan n 0 0 0 xs)
scan-Outcome n [] npos asc w = unfold scan in tt
scan-Outcome n (x ∷ xs) npos asc w =
    rw (scan_gap n 0 0 0 x xs asc.0 (inl refl) w.0) (elim (Bool-cases (1 == n)) [
      | inl one ↦ rw one (record {
        before = [];
        after = xs;
        whole_eq = ap (λ m. run x m ++ xs) (let e : 1 ≡ n = ground arith in e);
        index = ground arith;
        start_pos = asc.0;
      })
      | inr more ↦ rw more (
          scan-Outcome_inside n 1 x x 1 [] xs asc.0 (omega arith) (ground arith) (omega arith)
            (omega arith) asc.1 w.1)
    ])

-- `start, …, start + n - 1` are all in the list.
abbrev pub HasRun : ℕ → ℕ → List ℕ → Type 0
HasRun start n xs = (j : ℕ) → start ≤ j → j < start + n → 0 < count j xs

-- The loop found a run, and none that begins before it is in the list.
pub data IsFirst (start : ℕ) : Scan → Type 0 where
  first : (i s : ℕ) → s ≤ start → IsFirst start (found i s)

count-IsAbove : (lo a : ℕ) (xs : List ℕ) → IsAbove lo xs → a ≤ lo → count a xs ≡ 0
count-IsAbove lo a [] asc h = refl
count-IsAbove lo a (x ∷ xs) asc h =
    ground (arith, count-IsAbove x a xs asc.1 (omega (arith, asc.0)))

pub count-run : (start n j : ℕ) → count j (run start n) ≡ bit (leb start j && ltb j (start + n))
count-run start zero j = ground arith
count-run start (suc n) j = ground (arith, count-run (suc start) n j)

-- Below the first id behind a run, only the run counts.
count_beyond :
    (initial k j x : ℕ) (xs : List ℕ)
    → IsAbove x xs
    → j < x
    → count j (run initial k ++ x ∷ xs) ≡ bit (leb initial j && ltb j (initial + k))
count_beyond initial k j x xs asc h = ground (
  arith,
  count-append j (run initial k) (x ∷ xs),
  count-run initial k j,
  count-IsAbove x j xs asc (omega arith),
)

-- No run of `n` ids begins before a gap that comes too early.
gap_le :
    (n initial previd k q x : ℕ) (xs : List ℕ)
    → k < n
    → previd + 1 ≡ initial + k
    → previd + 1 < x
    → IsAbove x xs
    → initial ≤ q
    → HasRun q n (run initial k ++ x ∷ xs)
    → x ≤ q
gap_le n initial previd k q x xs kn pe gap asc le h = elim (Bool-cases (leb x q)) [
  | inl fine ↦ leb→le x q fine
  | inr below ↦
      let q_below : q < x = ground arith in
      let at_q = count_beyond initial k q x xs asc q_below in
      let at_next = count_beyond initial k (previd + 1) x xs asc gap in
      absurd (ground (arith, h q (omega arith) (omega arith), at_q, at_next, h (previd + 1)))
]

scan-IsFirst_inside :
    (n i initial previd k q : ℕ) (xs : List ℕ)
    → 1 < initial
    → 0 < k
    → k < n
    → previd + 1 ≡ initial + k
    → IsAbove previd xs
    → All (λ id. id < u64_mod) xs
    → initial ≤ q
    → HasRun q n (run initial k ++ xs)
    → IsFirst q (scan n i initial previd xs)
scan-IsFirst_inside n i initial previd k q [] pos kpos kn pe asc w le h = absurd (
    ground (
      arith,
      h (q + n - 1) (omega arith) (omega arith),
      count-append (q + n - 1) (run initial k) [],
      count-run initial k (q + n - 1),
    ))
scan-IsFirst_inside n i initial previd k q (x ∷ xs) pos kpos kn pe asc w le h =
    elim (Bool-cases (x == previd + 1)) [
      | inl next ↦
          let xe : x ≡ initial + k = ground arith in
          let grown : run initial k ++ x ∷ xs ≡ run initial (suc k) ++ xs =
            rw xe (run-grow initial k xs) in
          rw (scan_next n i initial previd x xs pos (omega arith) (ground arith) w.0)
            (elim (Bool-cases (x + 1 - initial == n)) [
              | inl hit ↦ rw hit (first i initial le)
              | inr miss ↦ rw miss (
                  scan-IsFirst_inside n (i + 1) initial x (suc k) q xs pos (omega arith)
                    (ground arith) (omega arith) asc.1 w.1 le (subst (HasRun q n) grown h))
            ])
      | inr gap ↦
          let beyond : previd + 1 < x = ground arith in
          let xq = gap_le n initial previd k q x xs kn pe beyond asc.1 le h in
          let not_one : (1 == n) ≡ false = ground arith in
          rw (scan_gap n i initial previd x xs (ground arith) (inr beyond) w.0) (
            rw not_one (
              scan-IsFirst_inside n (i + 1) x x 1 q xs (ground arith) (omega arith) (ground arith)
                (omega arith) asc.1 w.1 xq
                (λ j lo hi. ground (
                  arith,
                  h j lo hi,
                  count-append j (run initial k) (x ∷ xs),
                  count-run initial k j,
                ))))
    ]

-- If the ids hold a run of `n` pages, the loop finds one that begins no later.
pub scan-IsFirst :
    (n q : ℕ) (xs : List ℕ)
    → 0 < n
    → IsAbove 1 xs
    → All (λ id. id < u64_mod) xs
    → HasRun q n xs
    → IsFirst q (scan n 0 0 0 xs)
scan-IsFirst n q [] npos asc w h = absurd (omega (arith, h q (omega arith) (omega arith)))
scan-IsFirst n q (x ∷ xs) npos asc w h =
    let xq : x ≤ q = ground (arith, h q (omega arith) (omega arith), count-IsAbove x q xs asc.1) in
    rw (scan_gap n 0 0 0 x xs asc.0 (inl refl) w.0) (elim (Bool-cases (1 == n)) [
      | inl one ↦ rw one (first 0 x xq)
      | inr more ↦ rw more (
          scan-IsFirst_inside n 1 x x 1 q xs asc.0 (omega arith) (ground arith) (omega arith) asc.1
            w.1 xq h)
    ])
