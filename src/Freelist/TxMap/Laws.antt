-- ===== src/Freelist/TxMap/Laws.antt =====
-- Laws of the map `pending`: look-ups after writes, and how often an id occurs in the whole map.
use bolt_analysis.Prelude.{
  if◌then◌else◌, inl, inr, subst, false, Bool-cases, ap, ◌==◌, ℕ, ◌+◌, ◌≡◌, refl, arith, List, [],
  ◌∷◌, All,
}
use bolt_analysis.Prelude.Counts.{count, count-append}
use bolt_analysis.Freelist.TxMap.{Pending, lookup, assign, delete, pending_ids, HasUniqueKeys}

-- No entry has the key `t`.
abbrev pub Lacks : ℕ → Pending → Type 0
Lacks t m = All (λ e. (e.0 == t) ≡ false) m

pub lookup-assign :
    (t s : ℕ) (ids : List ℕ) (m : Pending)
    → lookup s (assign t ids m) ≡ (if t == s then ids else lookup s m)
unfolding lookup assign
lookup-assign t s ids [] = refl
lookup-assign t s ids ((k, old) ∷ m) = ground (arith, lookup-assign t s ids m)

pub lookup-Lacks : (t : ℕ) (m : Pending) → Lacks t m → lookup t m ≡ []
unfolding lookup
lookup-Lacks t [] h = refl
lookup-Lacks t ((k, ids) ∷ m) h = rw h.0 (lookup-Lacks t m h.1)

pub delete-Lacks : (t : ℕ) (m : Pending) → Lacks t m → delete t m ≡ m
unfolding delete
delete-Lacks t [] h = refl
delete-Lacks t ((k, ids) ∷ m) h = rw h.0 (ap (◌∷◌ (k, ids)) (delete-Lacks t m h.1))

Lacks-delete : (s t : ℕ) (m : Pending) → Lacks s m → Lacks s (delete t m)
unfolding delete
Lacks-delete s t [] h = tt
Lacks-delete s t ((k, ids) ∷ m) h = elim (Bool-cases (k == t)) [
  | inl same ↦ rw same (Lacks-delete s t m h.1)
  | inr other ↦ rw other (h.0, Lacks-delete s t m h.1)
]

pub delete_self-Lacks : (t : ℕ) (m : Pending) → Lacks t (delete t m)
unfolding delete
delete_self-Lacks t [] = tt
delete_self-Lacks t ((k, ids) ∷ m) = elim (Bool-cases (k == t)) [
  | inl same ↦ rw same (delete_self-Lacks t m)
  | inr other ↦ rw other (other, delete_self-Lacks t m)
]

pub lookup-delete :
    (t s : ℕ) (m : Pending) → lookup s (delete t m) ≡ (if t == s then [] else lookup s m)
unfolding lookup delete
lookup-delete t s [] = ground arith
lookup-delete t s ((k, ids) ∷ m) = ground (arith, lookup-delete t s m)

pub delete-HasUniqueKeys : (t : ℕ) (m : Pending) → HasUniqueKeys m → HasUniqueKeys (delete t m)
unfolding delete
delete-HasUniqueKeys t [] u = tt
delete-HasUniqueKeys t ((k, ids) ∷ m) u = elim (Bool-cases (k == t)) [
  | inl same ↦ rw same (delete-HasUniqueKeys t m u.1)
  | inr other ↦ rw other (Lacks-delete k t m u.0, delete-HasUniqueKeys t m u.1)
]

Lacks-assign :
    (s t : ℕ) (ids : List ℕ) (m : Pending) → (t == s) ≡ false → Lacks s m → Lacks s (assign t ids m)
unfolding assign
Lacks-assign s t ids [] ne h = (ne, tt)
Lacks-assign s t ids ((k, old) ∷ m) ne h = elim (Bool-cases (k == t)) [
  | inl same ↦ rw same (h.0, h.1)
  | inr other ↦ rw other (h.0, Lacks-assign s t ids m ne h.1)
]

pub assign-HasUniqueKeys :
    (t : ℕ) (ids : List ℕ) (m : Pending) → HasUniqueKeys m → HasUniqueKeys (assign t ids m)
unfolding assign
assign-HasUniqueKeys t ids [] u = (tt, tt)
assign-HasUniqueKeys t ids ((k, old) ∷ m) u = elim (Bool-cases (k == t)) [
  | inl same ↦ rw same u
  | inr other ↦
      rw other (Lacks-assign k t ids m (ground arith) u.0, assign-HasUniqueKeys t ids m u.1)
]

-- Writing to a key that is not there, and deleting it again.
pub delete-assign : (t : ℕ) (ids : List ℕ) (m : Pending) → Lacks t m → delete t (assign t ids m) ≡ m
unfolding delete assign
delete-assign t ids [] h = ground arith
delete-assign t ids ((k, old) ∷ m) h =
    rw (h.0) (rw (h.0) (ap (◌∷◌ (k, old)) (delete-assign t ids m h.1)))

pub count-assign :
    (a t : ℕ) (ids : List ℕ) (m : Pending)
    → count a (pending_ids (assign t ids m)) + count a (lookup t m)
      ≡ count a ids + count a (pending_ids m)
unfolding lookup assign
count-assign a t ids [] = omega (arith, count-append a ids [])
count-assign a t ids ((k, old) ∷ m) = elim (Bool-cases (k == t)) [
  | inl same ↦
      rw same
        (omega (arith, count-append a ids (pending_ids m), count-append a old (pending_ids m)))
  | inr other ↦ rw other (
      omega (
        arith,
        count-append a old (pending_ids (assign t ids m)),
        count-append a old (pending_ids m),
        count-assign a t ids m,
      ))
]

Lacks-of_eq : (k t : ℕ) (m : Pending) → k ≡ t → Lacks k m → Lacks t m
Lacks-of_eq k t m e h = subst (λ s. Lacks s m) e h

pub count-delete :
    (a t : ℕ) (m : Pending)
    → HasUniqueKeys m
    → count a (pending_ids m) ≡ count a (lookup t m) + count a (pending_ids (delete t m))
unfolding lookup delete
count-delete a t [] u = refl
count-delete a t ((k, ids) ∷ m) u = elim (Bool-cases (k == t)) [
  | inl same ↦
      rw (same, delete-Lacks t m (Lacks-of_eq k t m (ground arith) u.0))
        (count-append a ids (pending_ids m))
  | inr other ↦ rw other (
      omega (
        arith,
        count-append a ids (pending_ids m),
        count-append a ids (pending_ids (delete t m)),
        count-delete a t m u.1,
      ))
]
