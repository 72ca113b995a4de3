-- ===== src/GoSort/Search.antt =====
-- What `sort.Search` returns: a place where the test turns true.
use bolt_analysis.Prelude.{
  ℕ, zero, suc, ◌+◌, ◌/◌, ◌≤◌, ◌<◌, ◌≡◌, ◌≢◌, refl, ap, sym, ◌∙◌, inl, inr, List, [], ◌∷◌, length,
  get_or, All, All-get_or, Bool, true, false, arith, ltb, if◌then◌else◌, Bool-cases,
}
use bolt_analysis.GoSort.{search_loop, search}

-- The test is true at the result and false just before it.
pub record IsTurn (n : ℕ) (f : ℕ → Bool) (r : ℕ) : Type 0 where
  pub within : r ≤ n
  pub at : r < n → f r ≡ true
  pub before : (k : ℕ) → suc k ≡ r → f k ≡ false

module _ (n : ℕ) (f : ℕ → Bool) where
  stop :
      (i j : ℕ)
      → i ≤ j
      → j ≤ i
      → j ≤ n
      → (j < n → f j ≡ true)
      → ((k : ℕ) → suc k ≡ i → f k ≡ false)
      → IsTurn n f i
  stop i j ij ji jn at before =
      let e : i ≡ j = omega arith in
      record { within = omega arith; at = λ h. rw e (at (omega arith)); before = before }

  search_loop-IsTurn :
      (fuel i j : ℕ)
      → i ≤ j
      → j ≤ n
      → j ≤ i + fuel
      → (j < n → f j ≡ true)
      → ((k : ℕ) → suc k ≡ i → f k ≡ false)
      → IsTurn n f (search_loop fuel i j f)
  unfolding search_loop
  search_loop-IsTurn zero i j ij jn room at before = stop i j ij (omega arith) jn at before
  search_loop-IsTurn (suc fuel) i j ij jn room at before = elim (Bool-cases (ltb i j)) [
    | inl more ↦ elim (Bool-cases (f ((i + j) / 2))) [
      | inl hit ↦
          rw (more, hit)
            (search_loop-IsTurn fuel i ((i + j) / 2) (ground arith) (ground arith) (ground arith)
              (λ _. hit) before)
      | inr miss ↦
          rw (more, miss)
            (search_loop-IsTurn fuel ((i + j) / 2 + 1) j (ground arith) jn (ground arith) at
              (λ k e. let same : k ≡ (i + j) / 2 = omega arith in rw same miss))
    ]
    | inr done ↦ rw done (stop i j ij (ground arith) jn at before)
  ]

  pub search_lem : IsTurn n f (search n f)
  unfolding search
  search_lem =
      search_loop-IsTurn n 0 n (omega arith) (omega arith) (omega arith) (λ h. absurd (omega arith))
        (λ k e. absurd (omega arith))

-- Where a test over the elements of a list first holds; the length, if it never does.
abbrev pub position {ℓ} : {A : Type ℓ} → (A → Bool) → List A → ℕ
position p [] = 0
position p (x ∷ xs) = if p x then 0 else suc (position p xs)

-- Once the test holds it holds of every later element.
abbrev pub IsCut {ℓ} : {A : Type ℓ} → (A → Bool) → List A → Type 0
IsCut p [] = Unit
IsCut p (x ∷ xs) = (p x ≡ true → All (λ y. p y ≡ true) xs) × IsCut p xs

true_ne_false : true ≢ false
true_ne_false e = cc

module _ {ℓ} {A : Type ℓ} (p : A → Bool) (d : A) where
  turn_first :
      (x : A) (xs : List A) (r : ℕ)
      → IsCut p (x ∷ xs)
      → suc r ≤ length (x ∷ xs)
      → p (get_or (x ∷ xs) r d) ≡ false
      → p x ≡ false
  turn_first x xs zero c h e = e
  turn_first x xs (suc r) c h e = elim (Bool-cases (p x)) [
    | inl yes_x ↦
        absurd
          (true_ne_false (sym (All-get_or (λ y. p y ≡ true) xs r d (c.0 yes_x) (omega arith)) ∙ e))
    | inr no_x ↦ no_x
  ]

  turn-position :
      (xs : List A) (r : ℕ)
      → IsCut p xs
      → IsTurn (length xs) (λ i. p (get_or xs i d)) r
      → r ≡ position p xs
  turn-position [] r c t = omega (arith, t.within)
  turn-position (x ∷ xs) zero c t = rw (t.at (omega arith))
  turn-position (x ∷ xs) (suc r) c t =
      let first = turn_first x xs r c t.within (t.before r refl) in
      rw first (
        ap suc (
          turn-position xs r c.1 (record {
            within = omega (arith, t.within);
            at = λ h. t.at (omega arith);
            before = λ k e. t.before (suc k) (ap suc e);
          })))

  -- Over a list that is cut by the test, `sort.Search` finds the first element that passes it.
  pub search-position :
      (xs : List A) → IsCut p xs → search (length xs) (λ i. p (get_or xs i d)) ≡ position p xs
  search-position xs c = turn-position xs _ c (search_lem (length xs) _)
