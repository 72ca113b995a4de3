-- ===== src/Tests/Cursor.antt =====
-- Runs of the cursor on the tree of three leaves.
use bolt_analysis.Prelude.{ℕ, ◌≡◌, refl, arith, true, [], ◌∷◌, some, inr, ◌==◌, if◌then◌else◌}
use bolt_analysis.Prelude.Results.{Result, ok}
use bolt_analysis.Panics.{Panic}
use bolt_analysis.Pages.{ElementPage, View, of_page, is_leaf, elements, count}
use bolt_analysis.Cursor.{at_index, Stack, first, last, next, visible}
use bolt_analysis.Cursor.Tree.{IsTree, IsPath, collect}
use bolt_analysis.Cursor.Forward.{items_after}
use bolt_analysis.Cursor.Backward.{last?, last-last?}
use bolt_analysis.Cursor.Enumeration.{Shows, items_of, leaves_of, next-Shows, first-Shows}
use bolt_analysis.Cursor.Search.{seek}
use bolt_analysis.Cursor.Search.Order.{from_key}
use bolt_analysis.Cursor.Search.Seek.{seek-Shows}
use bolt_analysis.Bucket.{page_node}
use bolt_analysis.Tests.Trees.{
  tree, fetch, fetch-root, root_page, first_page, empty_page, page_at, branch_item, sample-IsTree,
  sample-IsSearchable,
}

-- On the last element of the first leaf: the next leaf is empty.
abbrev at_bucket : Stack
at_bucket = at_index (of_page first_page) 1 ∷ at_index (of_page root_page) 0 ∷ []

at_bucket-IsPath : IsPath fetch 0 at_bucket
unfolding is_leaf
at_bucket-IsPath = (refl, (sample-IsTree, tt))

next-Shows_example : Shows fetch 3 2 (items_after fetch 0 at_bucket) (next fetch true 3 2 at_bucket)
unfolding collect page_node is_leaf elements
next-Shows_example = next-Shows fetch 3 2 0 at_bucket (omega arith) (omega arith) at_bucket-IsPath

first-Shows_example :
    Shows fetch 3 2 (items_of fetch 1 (of_page root_page)) (first fetch true 3 2 3)
unfolding collect page_node is_leaf elements
first-Shows_example =
    first-Shows fetch 3 2 1 3 (of_page root_page) fetch-root sample-IsTree (omega arith)
      (omega arith)

-- The key 5 stands before all of the last leaf.
seek-Shows_example :
    Shows fetch 3 2
      (from_key (5 ∷ []) (items_of fetch 1 (of_page root_page)))
      (seek fetch true 3 2 3 (5 ∷ []))
unfolding collect page_node is_leaf elements
seek-Shows_example =
    seek-Shows fetch 3 2 1 3 (5 ∷ []) (of_page root_page) fetch-root sample-IsTree
      sample-IsSearchable (omega arith) (omega arith)

-- The tree without its third leaf: the last leaf is empty.
abbrev short_root : ElementPage
short_root = record root_page { elements = branch_item 1 4 ∷ branch_item 5 5 ∷ [] }

abbrev short_fetch : ℕ → Result Panic View
short_fetch = page_node (record tree { tx_page = λ id. if id == 3 then short_root else page_at id })

short_root-IsTree : IsTree short_fetch 1 (of_page short_root)
unfolding page_node count is_leaf elements
short_root-IsTree =
    inr (
      refl,
      omega arith,
      ((of_page first_page, refl, refl), ((of_page empty_page, refl, refl), tt)),
    )

last-last?_example :
    (stack : Stack) × (w : View) × (last? (leaves_of short_fetch 1 (of_page short_root)) ≡ some w)
    × (last short_fetch true 2 3 ≡ ok (stack, visible (last? (elements w))))
unfolding page_node
last-last?_example =
    last-last? short_fetch 2 1 3 (of_page short_root) refl short_root-IsTree (omega arith)
