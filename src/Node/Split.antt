-- ===== src/Node/Split.antt =====
-- node.go: `splitIndex`, `splitTwo` and `split`. A page's fill percentage is a float in the source,
-- so the threshold that `splitTwo` computes from it is an argument here. Nodes are known to their
-- parent by addresses, which are numbers.
pub mod Parts
pub mod Whole
use bolt_analysis.Prelude.{
  ◌*◌, ℕ, zero, suc, ◌+◌, ◌-◌, Bool, true, false, List, [], ◌∷◌, ◌++◌, ◌&&◌, ◌||◌, ltb, leb, ◌==◌,
  Option, none, some, if◌then◌else◌, length, take, drop,
}
use bolt_analysis.Page.{page_header_size}
use bolt_analysis.Node.{Inode, Node, page_element_size, item_size, size_less_than}

abbrev pub min_keys_per_page : ℕ
min_keys_per_page = 2

-- The loop of `splitIndex` over the inodes that it may visit, from index `i`.
pub index_loop : ℕ → ℕ → ℕ → ℕ → ℕ → List Inode → ℕ × ℕ
index_loop elsz threshold i index sz [] = (index, sz)
index_loop elsz threshold i index sz (inode ∷ inodes) =
    let elsize = item_size elsz inode in
    let rest = index_loop elsz threshold (i + 1) i (sz + elsize) inodes in
    if leb min_keys_per_page i && ltb threshold (sz + elsize) then (i, sz) else rest

-- `n.splitIndex(threshold)`
unfoldable pub split_index : ℕ → Node → ℕ × ℕ
unfolding index_loop
split_index threshold n =
    index_loop (page_element_size n) threshold 0 0 page_header_size
      (take (length n.inodes - min_keys_per_page) n.inodes)

-- What a split changes beside the nodes: the children of the parent, if there is one, and the
-- count of splits in the transaction's statistics.
pub record Links : Type 0 where
  pub parent : Option (List ℕ)
  pub splits : ℕ

-- `n.parent.children = append(n.parent.children, next)`, with a new parent of `self` if there is none
abbrev pub adopt : ℕ → ℕ → Links → Links
adopt self next links = record {
  parent = elim links.parent [
    | none ↦ some (self ∷ next ∷ [])
    | some children ↦ some (children ++ next ∷ [])
  ];
  splits = links.splits + 1;
}

-- `n.splitTwo(pageSize)` of the node at the address `self`; a new node gets the address `next`.
unfoldable pub split_two : ℕ → ℕ → ℕ → ℕ → Node → Links → Node × Option Node × Links
unfolding split_index
split_two page_size threshold self next n links =
    let index = (split_index threshold n).0 in
    if leb (length n.inodes) (min_keys_per_page * 2) || size_less_than page_size n
    then (n, none, links)
    else (
      record n { inodes = take index n.inodes },
      some (record {
        is_leaf = n.is_leaf;
        unbalanced = false;
        spilled = false;
        key = [];
        pgid = 0;
        inodes = drop index n.inodes;
      }),
      adopt self next links,
    )

abbrev pub Split : Type 0
Split = Option (List Node × Links)

abbrev add_part : Node → Split → Split
add_part a none = none
add_part a (some (nodes, links)) = some (a ∷ nodes, links)

-- If the node was split, its second half is split next.
abbrev next_round : Node × Option Node × Links → (Node → Links → Split) → Split
next_round (a, none, links) rest = some (a ∷ [], links)
next_round (a, some b, links) rest = add_part a (rest b links)

-- The loop of `split`, with rounds left: `none` if these run out.
pub split_loop : ℕ → ℕ → ℕ → ℕ → ℕ → Node → Links → Split
split_loop zero page_size threshold self next n links = none
split_loop (suc fuel) page_size threshold self next n links =
    next_round (split_two page_size threshold self next n links)
      (λ b links'. split_loop fuel page_size threshold next (next + 1) b links')

-- `n.split(pageSize)`; each round leaves fewer inodes to split.
unfoldable pub split_node : ℕ → ℕ → ℕ → ℕ → Node → Links → Split
unfolding split_loop
split_node page_size threshold self next n links =
    split_loop (length n.inodes + 1) page_size threshold self next n links
