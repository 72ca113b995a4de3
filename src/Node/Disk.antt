-- ===== src/Node/Disk.antt =====
-- node.go: `read` and `write`, a node on its page.
pub mod Layout
pub mod RoundTrip
use bolt_analysis.Prelude.{
  ℕ, zero, suc, ◌+◌, ◌*◌, ◌-◌, ◌%◌, ◌^◌, Bool, List, [], ◌∷◌, ◌++◌, length, drop, leb, ◌==◌,
  if◌then◌else◌,
}
use Prim.Native.Nat.{bit_or}
use bolt_analysis.Prelude.Results.{Result, ok, err, ◌>>=◌}
use bolt_analysis.Words.{u16_max}
use bolt_analysis.Panics.{Panic, zero_inode_key, inode_overflow, circular_dependency}
use bolt_analysis.Page.{has_flag, leaf_page_flag, branch_page_flag}
use bolt_analysis.Page.Elements.{
  BytesPage, element_memory, leaf_element, branch_element, leaf_key, leaf_value, branch_key,
}
use bolt_analysis.Memory.{field}
use bolt_analysis.Bytes.{Bytes}
use bolt_analysis.Node.{Inode, Node, page_element_size}

abbrev pub first_key : List Inode → Bytes
first_key [] = []
first_key (x ∷ xs) = x.key

-- The inode of a leaf element, from the memory that starts with the element.
unfoldable pub read_leaf : List ℕ → Result Panic Inode
unfolding leaf_key leaf_value leaf_element
read_leaf memory = do
  key ← leaf_key memory
  value ← leaf_value memory
  ok (record { flags = (leaf_element memory).flags; pgid = 0; key = key; value = value })

-- The inode of a branch element.
unfoldable pub read_branch : List ℕ → Result Panic Inode
unfolding branch_key branch_element
read_branch memory = do
  key ← branch_key memory
  ok (record { flags = 0; pgid = (branch_element memory).pgid; key = key; value = [] })

unfoldable pub read_item : Bool → List ℕ → Result Panic Inode
unfolding read_leaf read_branch
read_item is_leaf memory = if is_leaf then read_leaf memory else read_branch memory

-- `_assert(len(inode.key) > 0, …)` of `read` and `write`
unfoldable pub checked_key : Inode → Result Panic Inode
checked_key item = if length item.key == 0 then err zero_inode_key else ok item

-- The loop of `read`, from the index `i` on.
unfoldable pub read_items : Bool → ℕ → ℕ → List ℕ → Result Panic (List Inode)
unfolding read_item checked_key element_memory
read_items is_leaf zero i bytes = ok []
read_items is_leaf (suc more) i bytes = do
  item ← read_item is_leaf (element_memory i bytes)
  item' ← checked_key item
  items ← read_items is_leaf more (i + 1) bytes
  ok (item' ∷ items)

-- `n.read(p)`
unfoldable pub read : BytesPage → Node → Result Panic Node
unfolding read_items
read p n =
    let is_leaf = has_flag p.flags leaf_page_flag in
    read_items is_leaf p.count 0 p.bytes >>= λ items.
    ok (record n { pgid = p.id; is_leaf = is_leaf; inodes = items; key = first_key items })

-- The element of an inode, whose key and value start `pos` bytes after it.
unfoldable pub element_bytes : Bool → ℕ → Inode → List ℕ
unfolding field
element_bytes is_leaf pos item =
    if is_leaf
    then field 4 item.flags
      ++ (field 4 pos ++ (field 4 (length item.key) ++ field 4 (length item.value)))
    else field 4 pos ++ (field 4 (length item.key) ++ field 8 item.pgid)

-- `_assert(elem.pgid != p.id, …)`
unfoldable pub not_itself : Bool → ℕ → Inode → Result Panic Inode
not_itself is_leaf id item =
    if is_leaf then ok item else if item.pgid == id then err circular_dependency else ok item

-- The loop of `write` at the index `i`, with `at` bytes from `ptr` to `b`: the bytes of the elements,
-- and those of the keys and values.
unfoldable pub write_items : Bool → ℕ → ℕ → ℕ → List Inode → Result Panic (List ℕ × List ℕ)
unfolding checked_key element_bytes not_itself
write_items is_leaf id i at [] = ok ([], [])
write_items is_leaf id i at (item ∷ items) = do
  checked ← checked_key item
  checked' ← not_itself is_leaf id item
  (elements, contents) ←
      write_items is_leaf id (i + 1) (at + length item.key + length item.value) items
  ok (element_bytes is_leaf (at - 16 * i) item ++ elements, item.key ++ (item.value ++ contents))

-- `n.write(p)`: the page afterwards.
unfoldable pub write : Node → BytesPage → Result Panic BytesPage
unfolding write_items page_element_size
write n p =
    let flag = if n.is_leaf then leaf_page_flag else branch_page_flag in
    let count = length n.inodes in
    if leb u16_max count
    then err inode_overflow
    else if count == 0
    then ok (record p { flags = bit_or p.flags flag; count = 0 })
    else (write_items n.is_leaf p.id 0 (page_element_size n * count) n.inodes
        >>= λ (elements, contents).
            let written = elements ++ contents in
            ok (record p {
              flags = bit_or p.flags flag;
              count = count;
              bytes = written ++ drop (length written) p.bytes;
            }))
