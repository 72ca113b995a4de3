-- ===== src/Tests/Bucket.antt =====
-- Runs of the operations of a bucket on the tree of three leaves.
use bolt_analysis.Prelude.{
  leb, ◌||◌, ◌==◌, false, ◌&&◌, if◌then◌else◌, ◌≡◌, refl, arith, true, List, [], ◌∷◌, none, some,
  length,
}
use bolt_analysis.Prelude.Results.{ok}
use bolt_analysis.Bytes.{compare_bytes, equal, Bytes}
use bolt_analysis.Errors.{invalid, incompatible_value}
use bolt_analysis.Node.{search_key, size, Node}
use bolt_analysis.Node.Keys.{find}
use bolt_analysis.Pages.{count, elements, is_leaf, of_page}
use bolt_analysis.Cursor.Tree.{collect}
use bolt_analysis.Cursor.Enumeration.{items_of}
use bolt_analysis.Bucket.{Bucket, Visitor, for_each, page_node}
use bolt_analysis.Bucket.Each.{visit_all, for_each-visit_all}
use bolt_analysis.Bucket.Nodes.{keyed, node}
use bolt_analysis.Bucket.Pairs.{is_bucket, get, put, delete}
use bolt_analysis.Bucket.Found.{IsOrdered, plain, refusal, get-find, delete-from_key}
use bolt_analysis.Prelude.{Option}
use bolt_analysis.Errors.{Error}
use bolt_analysis.Bucket.Changed.{IsSound}
use bolt_analysis.Bucket.Written.{get-put, get-delete}
use bolt_analysis.Bucket.Runs.{run-get}
use bolt_analysis.Bucket.Model.{
  Update, put_pair, delete_key, run, updated_all, ReportsAll, Represents,
}
use bolt_analysis.GoSort
use bolt_analysis.Cursor.{at_index, element, key_value}
use bolt_analysis.Cursor.Search.{search, seek_key, at_key, branch_index}
use bolt_analysis.Tests.Trees.{sample_items, sample-Represents, last_page}
use bolt_analysis.Bucket.Loaded.{IsLoaded, node-IsLoaded}
use bolt_analysis.Tests.Trees.{
  leaf_item, tree, fetch-root, root_page, first_page, sample-IsTree, sample-IsOrdered,
}
use bolt_analysis.Cursor.Search.{seek_key, is_invalid}
use bolt_analysis.Bucket.Inline.{inlineable-size, max_inline_bucket_size, is_flat, inlineable}

-- It gathers the keys, and stops at the key 8.
abbrev gather : Visitor (List Bytes)
gather k v s = (k ∷ s, if equal k (8 ∷ []) then some invalid else none)

for_each-visit_all_example :
    for_each gather tree 3 2 5 []
    ≡ ok (visit_all gather (items_of (page_node tree) 1 (of_page root_page)) [])
unfolding collect page_node is_leaf elements
for_each-visit_all_example =
    for_each-visit_all gather tree 3 2 5 1 (of_page root_page) [] refl fetch-root sample-IsTree
      (omega arith) (omega arith) (omega arith)

get-find_example :
    get tree 2 (9 ∷ [])
    ≡ ok (plain (find (9 ∷ []) (items_of (page_node tree) 1 (of_page root_page))))
get-find_example = get-find tree 2 1 (of_page root_page) (9 ∷ []) sample-IsOrdered (omega arith)

-- The bucket with the first leaf as its root.
abbrev leaf_tree : Bucket
leaf_tree = record tree { root = 4 }

leaf_tree-IsOrdered : IsOrdered leaf_tree 0 (of_page first_page)
unfolding page_node is_invalid is_leaf elements compare_bytes
leaf_tree-IsOrdered = record {
  is_open = refl;
  is_root = refl;
  is_tree = refl;
  is_searchable = (refl, ((refl, tt), (tt, tt)));
}

-- The key 2 is not in the bucket.
delete-from_key_example : delete leaf_tree 1 (2 ∷ []) ≡ ok (leaf_tree, some incompatible_value)
unfolding elements compare_bytes
delete-from_key_example =
    delete-from_key leaf_tree 1 (of_page first_page) (2 ∷ []) (leaf_item 1 3 30) []
      leaf_tree-IsOrdered (omega arith) refl refl refl

keyed_page : keyed (tree.tx_page 4).elements ≡ true
unfolding keyed
keyed_page = refl

node-IsLoaded_example : IsLoaded 4 tree (node 4 (some 3) tree)
node-IsLoaded_example = node-IsLoaded tree 4 (some 3) refl refl refl keyed_page

abbrev small : Node
small = record {
  is_leaf = true;
  unbalanced = false;
  spilled = false;
  key = 8 ∷ [];
  pgid = 0;
  inodes = leaf_item 0 8 80 ∷ leaf_item 0 9 90 ∷ [];
}

inlineable-size_example : inlineable 4096 (some small) ≡ (
    true
    && (is_flat small.inodes
        && (length small.inodes == 0 || leb (size small) (max_inline_bucket_size 4096))))
inlineable-size_example = inlineable-size 4096 small

-- A pair is put and another is deleted; a bucket is not put over.
abbrev some_updates : List Update
some_updates = put_pair (2 ∷ []) (20 ∷ []) ∷ delete_key (9 ∷ []) ∷ put_pair (3 ∷ []) (0 ∷ []) ∷ []

run-get_example :
    (b' : Bucket) × (es : List (Option Error)) × (run 2 some_updates tree ≡ ok (b', es))
    × Represents b' 2 1 (updated_all some_updates sample_items)
    × ((j : Bytes) → get b' 2 j ≡ ok (plain (updated_all some_updates sample_items j)))
    × ReportsAll some_updates sample_items es
run-get_example = run-get 2 1 some_updates tree sample_items sample-Represents

get-put_example :
    (b' : Bucket) × (put tree 2 (2 ∷ []) (20 ∷ []) ≡ ok (b', none))
    × IsSound b' 1
    × ((j : Bytes) → get b' 2 j ≡ (if equal (2 ∷ []) j then ok (some (20 ∷ [])) else get tree 2 j))
unfolding elements is_leaf page_node refusal is_bucket collect compare_bytes find
get-put_example =
    get-put tree 2 1 (2 ∷ []) (20 ∷ []) none sample-Represents.sound (omega arith) (omega arith)
      (sample-Represents.entries (2 ∷ [])) refl

get-delete_example :
    (b' : Bucket) × (delete tree 2 (9 ∷ []) ≡ ok (b', none))
    × IsSound b' 1
    × ((j : Bytes) → get b' 2 j ≡ (if equal (9 ∷ []) j then ok none else get tree 2 j))
unfolding seek_key search at_key branch_index element elements is_leaf page_node compare_bytes
    search_key is_invalid count key_value is_bucket GoSort.search
get-delete_example =
    get-delete tree 2 1 (9 ∷ [])
      (at_index (of_page last_page) 1 ∷ at_index (of_page root_page) 2 ∷ [])
      (some (leaf_item 0 9 90)) sample-Represents.sound (omega arith) refl refl refl
