-- ===== src/Cursor/Search.antt =====
-- cursor.go: `search`, `seek` and `Seek`. The searches over a page and over a node are the same code
-- on the elements of either, and are one function here.
pub mod Choice
pub mod Order
pub mod Sought
pub mod Seek
pub mod Chain
use bolt_analysis.Prelude.{
  ℕ, zero, suc, ◌+◌, ◌-◌, ◌/◌, Bool, true, false, not, List, [], ◌∷◌, Option, none, some, ltb, leb,
  ◌==◌, ◌&&◌, ◌||◌, if◌then◌else◌, length, get_or,
}
use Prim.Native.Nat.{Ordering}
use bolt_analysis.Prelude.Results.{Result, ok, err, ◌>>=◌}
use bolt_analysis.Panics.{Panic, diverged, index_out_of_range, invalid_page_type}
use bolt_analysis.Bytes.{Bytes, compare_bytes, equal}
use bolt_analysis.Page.{has_flag, leaf_page_flag, branch_page_flag}
use bolt_analysis.Node.{Inode, empty_inode, search_key}
use bolt_analysis.Pages.{ElementPage, View, of_page, of_node, is_leaf, elements, count}
use bolt_analysis.Cursor.{
  Ref, at_index, Stack, element, key_value, next_loop, assert_open, visible, bucket_leaf_flag,
}

abbrev is_eq : Ordering → Bool
is_eq o = elim o [ Ordering.eq ↦ true | _ ↦ false ]

abbrev is_lt : Ordering → Bool
is_lt o = elim o [ Ordering.lt ↦ true | _ ↦ false ]

-- `sort.Search` with a test that also sets `exact` when a key that it is asked about is equal.
unfoldable pub exact_loop : ℕ → ℕ → ℕ → (ℕ → Ordering) → Bool → ℕ × Bool
exact_loop zero i j cmp exact = (i, exact)
exact_loop (suc fuel) i j cmp exact =
    let h = (i + j) / 2 in
    let exact' = exact || is_eq (cmp h) in
    let upper = exact_loop fuel (h + 1) j cmp exact' in
    let lower = exact_loop fuel i h cmp exact' in
    if ltb i j then (if is_lt (cmp h) then upper else lower) else (i, exact)

-- `if !exact && index > 0 { index-- }`
step_back : ℕ × Bool → ℕ
step_back (index, exact) = if not exact && ltb 0 index then index - 1 else index

-- The index of the child in `searchNode` and `searchPage`.
unfoldable pub branch_index : List Inode → Bytes → ℕ
unfolding exact_loop step_back
branch_index inodes key = step_back (
    exact_loop (length inodes) 0 (length inodes)
      (λ i. compare_bytes (get_or inodes i empty_inode).key key) false)

-- `p != nil && (p.flags & (branchPageFlag|leafPageFlag)) == 0`, by the two flags
unfoldable pub is_invalid : View → Bool
is_invalid (of_page p) = not (has_flag p.flags branch_page_flag || has_flag p.flags leaf_page_flag)
is_invalid (of_node n) = false

abbrev page_id : View → ℕ
page_id (of_page p) = p.id
page_id (of_node n) = n.pgid

module _ (fetch : ℕ → Result Panic View) where
  -- `c.search(key, pgid)` on top of a stack, with rounds left; `nsearch` at the leaf.
  unfoldable pub search : ℕ → Bytes → ℕ → Stack → Result Panic Stack
  unfolding is_invalid
  search zero key pgid refs = err diverged
  search (suc fuel) key pgid refs = fetch pgid >>= λ v.
      let r = at_index v (branch_index (elements v) key) in
      let down = element r >>= λ e. search fuel key e.pgid (r ∷ refs) in
      if is_invalid v
      then err (invalid_page_type (page_id v))
      else if is_leaf v
      then ok (at_index v (search_key (elements v) key) ∷ refs)
      else down

  -- The end of `seek`: nothing behind the last element of the page.
  unfoldable pub at_key : Stack → Result Panic (Stack × Option Inode)
  at_key [] = err index_out_of_range
  at_key (r ∷ refs) =
      if leb (count r.view) r.index then ok (r ∷ refs, none) else ok (r ∷ refs, key_value r)

  -- `c.seek(key)`
  unfoldable pub seek_key : Bool → ℕ → ℕ → Bytes → Result Panic (Stack × Option Inode)
  unfolding search at_key
  seek_key tx_open height root key =
      assert_open tx_open do refs ← search height key root []; at_key refs

  -- `Seek` moves on from the end of a page.
  move_on : ℕ → ℕ → Stack × Option Inode → Result Panic (Stack × Option Inode)
  move_on rounds height ([], item) = err index_out_of_range
  move_on rounds height (r ∷ refs, item) =
      if leb (count r.view) r.index
      then next_loop fetch rounds height (r ∷ refs)
      else ok (r ∷ refs, item)

  -- `c.Seek(key)`
  unfoldable pub seek :
      Bool → ℕ → ℕ → ℕ → Bytes → Result Panic (Stack × Option (Bytes × Option Bytes))
  unfolding move_on seek_key
  seek tx_open rounds height root key = do
    found ← seek_key tx_open height root key
    (refs, item) ← move_on rounds height found
    ok (refs, visible item)
