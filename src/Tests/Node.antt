-- ===== src/Tests/Node.antt =====
-- Runs of the node operations.
use bolt_analysis.Prelude.{refl}
use bolt_analysis.Prelude.Results.{ok}
use bolt_analysis.Node.{size, page_element_size}
use bolt_analysis.Bytes.{compare_bytes}
use bolt_analysis.Node.Update.{written, put_lem}
use bolt_analysis.Bytes.{equal, Bytes}
use bolt_analysis.Node.{put, Inode, Node, size_less_than}
use bolt_analysis.Node.Keys.{IsAscending, find}
use bolt_analysis.Node.Split.Parts.{split_index_lem, IsCutAt}
use bolt_analysis.Node.Split.{split_two, Links, split_index, Split, split_node}
use bolt_analysis.Prelude.{
  length, arith, false, if◌then◌else◌, some, ℕ, List, [], none, true, ◌∷◌, ◌≡◌,
}
use bolt_analysis.Node.Split.Whole.{split_lem, IsSplit}

abbrev item : Bytes → Bytes → Inode
item k v = record { flags = 0; pgid = 0; key = k; value = v }

-- A leaf with the keys 1, 3 and 5.
abbrev leaf : Node
leaf = record {
  is_leaf = true;
  unbalanced = false;
  spilled = false;
  key = 1 ∷ [];
  pgid = 4;
  inodes = item (1 ∷ []) (10 ∷ []) ∷ item (3 ∷ []) (30 ∷ []) ∷ item (5 ∷ []) (50 ∷ []) ∷ [];
}

leaf-IsAscending : IsAscending leaf.inodes
unfolding compare_bytes
leaf-IsAscending = ((refl, (refl, tt)), ((refl, tt), (tt, tt)))

put_lem_example :
    (inodes : List Inode) × (put 10 (2 ∷ []) (2 ∷ []) (20 ∷ []) 0 1 leaf
      ≡ ok (record leaf { inodes = inodes }))
    × IsAscending inodes
    × ((j : Bytes)
        → find j inodes ≡ (
            if equal (2 ∷ []) j then some (written (2 ∷ []) (20 ∷ []) 0 1) else find j leaf.inodes))
put_lem_example =
    put_lem leaf leaf-IsAscending 10 (2 ∷ []) (20 ∷ []) 0 1 (omega arith) (omega arith)

-- TestNode_splitTwo_MinKeys, TestNode_split: five inodes of 32 bytes, a page size of 100 bytes.
abbrev five : Node
five = record leaf {
  inodes =
      item (1 ∷ []) (0 ∷ 1 ∷ 2 ∷ 3 ∷ 4 ∷ 5 ∷ 6 ∷ [])
      ∷ item (2 ∷ []) (0 ∷ 1 ∷ 2 ∷ 3 ∷ 4 ∷ 5 ∷ 6 ∷ [])
      ∷ item (3 ∷ []) (0 ∷ 1 ∷ 2 ∷ 3 ∷ 4 ∷ 5 ∷ 6 ∷ [])
      ∷ item (4 ∷ []) (0 ∷ 1 ∷ 2 ∷ 3 ∷ 4 ∷ 5 ∷ 6 ∷ [])
      ∷ item (5 ∷ []) (0 ∷ 1 ∷ 2 ∷ 3 ∷ 4 ∷ 5 ∷ 6 ∷ [])
      ∷ [];
}

five-size : size five ≡ 136
unfolding size page_element_size
five-size = refl

split_index_lem_example : IsCutAt 50 five (split_index 50 five).0
split_index_lem_example = split_index_lem 50 five (omega arith)

split_lem_example :
    (nodes : List Node) × (links' : Links) × (split_node 100 50 8 9 five
        (record { parent = none; splits = 0 })
      ≡ some (nodes, links'))
    × IsSplit 100 50 five (record { parent = none; splits = 0 }) nodes links'
split_lem_example = split_lem 100 50 8 9 five (record { parent = none; splits = 0 })

abbrev node_lengths : Split → List ℕ
node_lengths none = []
node_lengths (some ([], links)) = []
node_lengths (some (a ∷ [], links)) = length a.inodes ∷ []
node_lengths (some (a ∷ b ∷ rest, links)) = length a.inodes ∷ length b.inodes ∷ []

split_run :
    node_lengths (split_node 100 50 8 9 five (record { parent = none; splits = 0 })) ≡ 2 ∷ 3 ∷ []
unfolding split_node split_two size_less_than page_element_size
split_run = refl
