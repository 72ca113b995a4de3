-- ===== src/Node.antt =====
-- node.go: a page of the tree in memory. The parent and the children of a node are not part of
-- this record; the bucket's fields that an operation reads are its arguments.
pub mod Disk
pub mod Keys
pub mod Update
pub mod Split
pub mod Sizes
use bolt_analysis.Prelude.{
  ℕ, zero, suc, ◌+◌, ◌-◌, ◌<◌, Bool, true, false, not, List, [], ◌∷◌, ◌++◌, ◌&&◌, ◌||◌, ltb, leb,
  ◌==◌, if◌then◌else◌, length, get_or, take, drop,
}
use bolt_analysis.Prelude.Results.{Result, ok, err}
use bolt_analysis.Bytes.{Bytes, less, equal}
use bolt_analysis.Panics.{Panic, above_high_water_mark, zero_old_key, zero_new_key, zero_inode_key}
use bolt_analysis.GoSort.{search}
use bolt_analysis.Page.{page_header_size}

pub record Inode : Type 0 where
  pub flags : ℕ
  pub pgid : ℕ
  pub key : Bytes
  pub value : Bytes

abbrev pub empty_inode : Inode
empty_inode = record { flags = 0; pgid = 0; key = []; value = [] }

pub record Node : Type 0 where
  pub is_leaf : Bool
  pub unbalanced : Bool
  pub spilled : Bool
  pub key : Bytes
  pub pgid : ℕ
  pub inodes : List Inode

-- `sort.Search(len(inodes), func(i int) bool { return bytes.Compare(inodes[i].key, key) != -1 })`
unfoldable pub search_key : List Inode → Bytes → ℕ
search_key inodes key =
    search (length inodes) (λ i. not (less (get_or inodes i empty_inode).key key))

-- `n.minKeys()`
unfoldable pub min_keys : Node → ℕ
min_keys n = if n.is_leaf then 1 else 2

abbrev pub leaf_page_element_size : ℕ
leaf_page_element_size = 16

abbrev pub branch_page_element_size : ℕ
branch_page_element_size = 16

-- `n.pageElementSize()`
unfoldable pub page_element_size : Node → ℕ
page_element_size n = if n.is_leaf then leaf_page_element_size else branch_page_element_size

-- The bytes that an element of size `elsz` takes on a page.
abbrev pub item_size : ℕ → Inode → ℕ
item_size elsz item = elsz + length item.key + length item.value

-- The loop of `size`.
unfoldable pub add_sizes : ℕ → ℕ → List Inode → ℕ
add_sizes elsz sz [] = sz
add_sizes elsz sz (item ∷ items) = add_sizes elsz (sz + item_size elsz item) items

-- `n.size()`
unfoldable pub size : Node → ℕ
unfolding add_sizes
size n = add_sizes (page_element_size n) page_header_size n.inodes

-- The loop of `sizeLessThan`.
pub less_than_loop : ℕ → ℕ → ℕ → List Inode → Bool
less_than_loop elsz v sz [] = true
less_than_loop elsz v sz (item ∷ items) =
    let sz' = sz + item_size elsz item in
    let rest = less_than_loop elsz v sz' items in if leb v sz' then false else rest

-- `n.sizeLessThan(v)`
unfoldable pub size_less_than : ℕ → Node → Bool
unfolding less_than_loop
size_less_than v n = less_than_loop (page_element_size n) v page_header_size n.inodes

-- `n.childIndex(child)`, of the child's key
unfoldable pub child_index : Node → Bytes → ℕ
unfolding search_key
child_index n child_key = search_key n.inodes child_key

-- Whether the inode at `index` has the key.
unfoldable pub is_exact : List Inode → ℕ → Bytes → Bool
is_exact inodes index key =
    ltb 0 (length inodes)
    && ltb index (length inodes)
    && equal (get_or inodes index empty_inode).key key

-- What follows the slot that `put` writes: an exact match is overwritten, otherwise the inodes
-- from the index on are shifted.
unfoldable pub behind : Bytes → List Inode → ℕ → List Inode
unfolding is_exact
behind key inodes index =
    if is_exact inodes index key then drop (index + 1) inodes else drop index inodes

-- `n.put(oldKey, newKey, value, pgid, flags)`, below the high water mark `high` of the transaction.
unfoldable pub put : ℕ → Bytes → Bytes → Bytes → ℕ → ℕ → Node → Result Panic Node
unfolding search_key behind
put high old_key new_key value pgid flags n =
    let index = search_key n.inodes old_key in
    let inode : Inode = record { flags = flags; pgid = pgid; key = new_key; value = value } in
    if leb high pgid
    then err (above_high_water_mark pgid high)
    else if length old_key == 0
    then err zero_old_key
    else if length new_key == 0
    then err zero_new_key
    else ok (record n { inodes = take index n.inodes ++ inode ∷ behind old_key n.inodes index })

-- `n.del(key)`
unfoldable pub del : Bytes → Node → Node
unfolding search_key
del key n =
    let index = search_key n.inodes key in
    if leb (length n.inodes) index || not (equal (get_or n.inodes index empty_inode).key key)
    then n
    else record n { inodes = take index n.inodes ++ drop (index + 1) n.inodes; unbalanced = true }
