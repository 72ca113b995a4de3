-- ===== src/Tests/Nested.antt =====
-- Runs of the operations on buckets in buckets.
use bolt_analysis.Prelude.{◌≡◌, arith, true, false, List, [], ◌∷◌, none, some, ℕ}
use bolt_analysis.Prelude.Results.{ok}
use bolt_analysis.Node.{Node, size, page_element_size}
use bolt_analysis.Node.Disk as Disk
use bolt_analysis.Node.Disk.{first_key}
use bolt_analysis.Page.Elements.{BytesPage}
use bolt_analysis.Pages.{is_leaf}
use bolt_analysis.Bucket.Value.{Opened, write, open_bucket, open_bucket-write}
use bolt_analysis.Bucket.Create.{Nested}
use bolt_analysis.Tests.Trees.{leaf_item, tree}

abbrev two_items : Node
two_items = record {
  is_leaf = true;
  unbalanced = false;
  spilled = false;
  key = 8 ∷ [];
  pgid = 0;
  inodes = leaf_item 0 8 80 ∷ leaf_item 1 9 90 ∷ [];
}

abbrev no_items : Node
no_items = record two_items { inodes = [] }

open_bucket-write_example :
    (value : List ℕ) × (write 0 7 two_items ≡ ok value)
    × (o : Opened) × (open_bucket value ≡ ok o)
    × (o.root ≡ 0)
    × (o.sequence ≡ 7)
    × (◌≡◌ {A = ℕ} 0 0
        → (p : BytesPage) × (o.page ≡ some p)
          × (Disk.read p no_items
              ≡ ok (record no_items {
                pgid = 0;
                is_leaf = true;
                inodes = two_items.inodes;
                key = first_key two_items.inodes;
              })))
unfolding size page_element_size
open_bucket-write_example =
    open_bucket-write 0 7 two_items no_items (omega arith) (omega arith) (omega arith) (omega arith)
      (omega arith)

-- The tree with an empty cache.
abbrev nested : Nested
nested = record { bucket = tree; buckets = some (λ name. none) }
