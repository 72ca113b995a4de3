-- ===== src/Tests/Pages.antt =====
-- Runs of the reading and the writing of a node on a page.
use bolt_analysis.Prelude.{false, ◌≡◌, refl, arith, true, [], ◌∷◌, List, ℕ, ◌-◌, ◌++◌, drop}
use bolt_analysis.Prelude.Results.{ok}
use bolt_analysis.Page.Elements.{BytesPage}
use bolt_analysis.Node.{Node, size, page_element_size}
use bolt_analysis.Node.Disk.{read, write, first_key}
use bolt_analysis.Node.Disk.RoundTrip.{read-write_page}
use bolt_analysis.Tests.Trees.{leaf_item}

abbrev zeros : List ℕ
zeros = 0 ∷ 0 ∷ 0 ∷ 0 ∷ 0 ∷ 0 ∷ 0 ∷ 0 ∷ 0 ∷ 0 ∷ []

-- A new page with room for more than the elements.
abbrev clear_page : BytesPage
clear_page = record {
  id = 7;
  flags = 0;
  count = 0;
  overflow = 0;
  bytes = zeros ++ (zeros ++ (zeros ++ zeros));
}

abbrev two_items : Node
two_items = record {
  is_leaf = true;
  unbalanced = false;
  spilled = false;
  key = 8 ∷ [];
  pgid = 0;
  inodes = leaf_item 0 8 80 ∷ leaf_item 1 9 90 ∷ [];
}

abbrev other_node : Node
other_node = record two_items { inodes = [] }

-- The page with two elements, and the keys and values behind them.
abbrev written_page : BytesPage
written_page = record clear_page {
  flags = 2;
  count = 2;
  bytes =
      0 ∷ 0 ∷ 0 ∷ 0 ∷ 32 ∷ 0 ∷ 0 ∷ 0 ∷ 1 ∷ 0 ∷ 0 ∷ 0 ∷ 1 ∷ 0 ∷ 0 ∷ 0 ∷ 1 ∷ 0 ∷ 0 ∷ 0 ∷ 18 ∷ 0 ∷ 0
      ∷ 0 ∷ 1 ∷ 0 ∷ 0 ∷ 0 ∷ 1 ∷ 0 ∷ 0 ∷ 0 ∷ 8 ∷ 80 ∷ 9 ∷ 90 ∷ 0 ∷ 0 ∷ 0 ∷ 0 ∷ [];
}

write_two : write two_items clear_page ≡ ok written_page
unfolding write
write_two = refl

read-write_page_example :
    (q : BytesPage) × (write two_items clear_page ≡ ok q)
    × (read q other_node
        ≡ ok (record other_node {
          pgid = 7;
          is_leaf = true;
          inodes = two_items.inodes;
          key = first_key two_items.inodes;
        }))
    × (drop (size two_items - 16) q.bytes ≡ drop (size two_items - 16) clear_page.bytes)
unfolding size page_element_size
read-write_page_example =
    read-write_page two_items other_node clear_page refl (omega arith) (omega arith) (omega arith)
