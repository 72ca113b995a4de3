-- ===== src/Cursor.antt =====
-- cursor.go: the cursor, over the pages that `c.bucket.pageNode` finds. The stack of the source is a
-- list here whose first entry is the top. An index of -1, which the source takes for the last element
-- of an empty page, is 0 here: each use compares it with the count first, or reads past the end.
pub mod Tree
pub mod Position
pub mod Forward
pub mod Backward
pub mod Search
pub mod Enumeration
use bolt_analysis.Prelude.{
  leb, ◌||◌, ℕ, zero, suc, ◌+◌, ◌-◌, Bool, true, false, List, [], ◌∷◌, Option, none, some, ltb,
  ◌==◌, if◌then◌else◌, get_elem?,
}
use bolt_analysis.Prelude.Results.{Result, ok, err, ◌>>=◌}
use bolt_analysis.Panics.{closed_tx, Panic, diverged, index_out_of_range}
use bolt_analysis.Errors.{Error}
use bolt_analysis.Bytes.{Bytes}
use bolt_analysis.Page.{has_flag}
use bolt_analysis.Node.{Inode}
use bolt_analysis.Pages.{View, is_leaf, elements, count}

abbrev pub bucket_leaf_flag : ℕ
bucket_leaf_flag = 1

-- `elemRef`
pub record Ref : Type 0 where
  pub view : View
  pub index : ℕ

abbrev pub at_index : View → ℕ → Ref
at_index v i = record { view = v; index = i }

abbrev pub Stack : Type 0
Stack = List Ref

-- The inode or page element that a reference is at.
unfoldable pub element : Ref → Result Panic Inode
element r = elim (get_elem? (elements r.view) r.index) [
  | none ↦ err index_out_of_range
  | some e ↦ ok e
]

-- `c.keyValue()` of the top of the stack; `none` stands for a nil key.
unfoldable pub key_value : Ref → Option Inode
key_value r =
    if count r.view == 0 || leb (count r.view) r.index
    then none
    else get_elem? (elements r.view) r.index

-- What the exported methods return: the key, and no value for a bucket.
unfoldable pub visible : Option Inode → Option (Bytes × Option Bytes)
visible none = none
visible (some e) = some (e.key, if has_flag e.flags bucket_leaf_flag then none else some e.value)

-- The loop of `next` over the stack: up to the first entry that can move on.
pub advance : Stack → Option Stack
advance [] = none
advance (r ∷ refs) =
    let rest = advance refs in
    if ltb (r.index + 1) (count r.view) then some (at_index r.view (r.index + 1) ∷ refs) else rest

-- The loop of `Prev` over the stack.
pub retreat : Stack → Stack
retreat [] = []
retreat (r ∷ refs) =
    let rest = retreat refs in if ltb 0 r.index then at_index r.view (r.index - 1) ∷ refs else rest

-- After `first` in `next`: an empty page starts the next round.
landed : (Stack → Result Panic (Stack × Option Inode)) → Stack → Result Panic (Stack × Option Inode)
landed again [] = err index_out_of_range
landed again (r ∷ refs) = if count r.view == 0 then again (r ∷ refs) else ok (r ∷ refs, key_value r)

-- If no entry can move on the cursor stays.
onward :
    (Stack → Result Panic (Stack × Option Inode))
    → Stack
    → Option Stack
    → Result Panic (Stack × Option Inode)
onward go refs none = ok (refs, none)
onward go refs (some refs') = go refs'

-- The stack with what its top shows.
abbrev pub shown : Stack → Result Panic (Stack × Option Inode)
shown [] = err index_out_of_range
shown (r ∷ refs) = ok (r ∷ refs, key_value r)

-- `_assert(c.bucket.tx.db != nil, "tx closed")` before a method
abbrev pub assert_open {ℓ} : {A : Type ℓ} → Bool → Result Panic A → Result Panic A
assert_open true m = m
assert_open false m = err closed_tx

abbrev pub exported : Stack × Option Inode → Result Panic (Stack × Option (Bytes × Option Bytes))
exported (s, r) = ok (s, visible r)

module _ (fetch : ℕ → Result Panic View) where
  -- `c.first()`, down from the top of the stack, with rounds left.
  pub first_loop : ℕ → Stack → Result Panic Stack
  first_loop zero refs = err diverged
  first_loop (suc fuel) [] = err index_out_of_range
  first_loop (suc fuel) (r ∷ refs) =
      let next =
        element r >>= λ e. fetch e.pgid >>= λ v. first_loop fuel (at_index v 0 ∷ r ∷ refs) in
      if is_leaf r.view then ok (r ∷ refs) else next

  -- `c.last()`
  pub last_loop : ℕ → Stack → Result Panic Stack
  last_loop zero refs = err diverged
  last_loop (suc fuel) [] = err index_out_of_range
  last_loop (suc fuel) (r ∷ refs) =
      let next = element r >>= λ e.
      fetch e.pgid >>= λ v. last_loop fuel (at_index v (count v - 1) ∷ r ∷ refs) in
      if is_leaf r.view then ok (r ∷ refs) else next

  -- `c.next()`, with rounds left for its loop; each call of `first` has `height` rounds.
  pub next_loop : ℕ → ℕ → Stack → Result Panic (Stack × Option Inode)
  unfolding landed onward
  next_loop zero height refs = err diverged
  next_loop (suc rounds) height refs =
      onward (λ refs'. first_loop height refs' >>= landed (next_loop rounds height)) refs
        (advance refs)

  -- If `First` is on an empty page it moves on.
  first_found : ℕ → ℕ → Stack → Result Panic (Stack × Option Inode)
  first_found rounds height [] = err index_out_of_range
  first_found rounds height (r ∷ refs) =
      if count r.view == 0
      then (next_loop rounds height (r ∷ refs) >>= λ (s, e). shown s)
      else shown (r ∷ refs)

  -- `c.First()` in a bucket with the root `root`; the Boolean says whether the transaction is open.
  pub first : Bool → ℕ → ℕ → ℕ → Result Panic (Stack × Option (Bytes × Option Bytes))
  unfolding first_found
  first tx_open rounds height root = assert_open tx_open do
    v ← fetch root
    refs ← first_loop height (at_index v 0 ∷ [])
    found ← first_found rounds height refs
    exported found

  -- `c.Last()`
  pub last : Bool → ℕ → ℕ → Result Panic (Stack × Option (Bytes × Option Bytes))
  last tx_open height root = assert_open tx_open do
    v ← fetch root
    refs ← last_loop height (at_index v (count v - 1) ∷ [])
    found ← shown refs
    exported found

  -- `c.Next()`
  pub next : Bool → ℕ → ℕ → Stack → Result Panic (Stack × Option (Bytes × Option Bytes))
  next tx_open rounds height refs = assert_open tx_open (next_loop rounds height refs >>= exported)

  prev_found : ℕ → Stack → Result Panic (Stack × Option (Bytes × Option Bytes))
  prev_found height [] = ok ([], none)
  prev_found height (r ∷ refs) = do
    refs' ← last_loop height (r ∷ refs)
    found ← shown refs'
    exported found

  -- `c.Prev()`
  pub prev : Bool → ℕ → Stack → Result Panic (Stack × Option (Bytes × Option Bytes))
  unfolding prev_found
  prev tx_open height refs = assert_open tx_open (prev_found height (retreat refs))
