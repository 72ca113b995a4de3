-- ===== src/Freelist/TxMap.antt =====
-- The map `pending` from transaction ids to lists of page ids.
pub mod Laws
use bolt_analysis.Prelude.{
  ℕ, ◌≡◌, Bool, false, List, [], ◌∷◌, ◌++◌, ◌==◌, if◌then◌else◌, All, length, ◌+◌,
}

abbrev pub Pending : Type 0
Pending = List (ℕ × List ℕ)

-- m[t], empty if the key is not there
unfoldable pub lookup : ℕ → Pending → List ℕ
lookup t [] = []
lookup t ((k, ids) ∷ m) = if k == t then ids else lookup t m

-- m[t] = ids
unfoldable pub assign : ℕ → List ℕ → Pending → Pending
assign t ids [] = (t, ids) ∷ []
assign t ids ((k, old) ∷ m) = if k == t then (k, ids) ∷ m else (k, old) ∷ assign t ids m

-- delete(m, t)
unfoldable pub delete : ℕ → Pending → Pending
delete t [] = []
delete t ((k, ids) ∷ m) = let rest = delete t m in if k == t then rest else (k, ids) ∷ rest

-- All the lists of the map, one after the other.
abbrev pub pending_ids : Pending → List ℕ
pending_ids [] = []
pending_ids ((t, ids) ∷ m) = ids ++ pending_ids m

-- Each key has one entry.
abbrev pub HasUniqueKeys : Pending → Type 0
HasUniqueKeys [] = Unit
HasUniqueKeys ((t, ids) ∷ m) = All (λ e. (e.0 == t) ≡ false) m × HasUniqueKeys m
