-- ===== src/Tests/Trees.antt =====
-- A bucket with a branch page over three leaves, of which the second is empty.
use bolt_analysis.Prelude.{
  ℕ, ◌≡◌, refl, subst, arith, true, inr, [], ◌∷◌, none, ◌==◌, if◌then◌else◌,
}
use bolt_analysis.Prelude.Results.{Result, ok}
use bolt_analysis.Panics.{Panic}
use bolt_analysis.Bytes.{compare_bytes}
use bolt_analysis.Node.{Inode}
use bolt_analysis.Pages.{ElementPage, View, of_page, is_leaf, elements, count}
use bolt_analysis.Cursor.Tree.{IsTree, collect}
use bolt_analysis.Cursor.Search.{is_invalid}
use bolt_analysis.Cursor.Search.Sought.{IsSearchable}
use bolt_analysis.Bucket.{Bucket, page_node}
use bolt_analysis.Bucket.Found.{IsOrdered}
use bolt_analysis.Bucket.Nodes.{keyed}
use bolt_analysis.Bucket.Path.{IsReadable, IsWritable}
use bolt_analysis.Bucket.Model.{Elements, Represents, items-Represents}
use bolt_analysis.Cursor.Search.Chain.{IsGood}
use bolt_analysis.Cursor.Enumeration.{items_of}
use bolt_analysis.Node.Keys.{find}

abbrev pub leaf_item : ℕ → ℕ → ℕ → Inode
leaf_item flags k v = record { flags = flags; pgid = 0; key = k ∷ []; value = v ∷ [] }

abbrev pub branch_item : ℕ → ℕ → Inode
branch_item k id = record { flags = 0; pgid = id; key = k ∷ []; value = [] }

abbrev pub root_page : ElementPage
root_page = record {
  id = 3;
  flags = 1;
  overflow = 0;
  elements = branch_item 1 4 ∷ branch_item 5 5 ∷ branch_item 7 6 ∷ [];
}

-- The key 3 is that of a bucket.
abbrev pub first_page : ElementPage
first_page = record {
  id = 4;
  flags = 2;
  overflow = 0;
  elements = leaf_item 0 1 10 ∷ leaf_item 1 3 30 ∷ [];
}

abbrev pub empty_page : ElementPage
empty_page = record { id = 5; flags = 2; overflow = 0; elements = [] }

abbrev pub last_page : ElementPage
last_page = record {
  id = 6;
  flags = 2;
  overflow = 0;
  elements = leaf_item 0 8 80 ∷ leaf_item 0 9 90 ∷ [];
}

abbrev pub page_at : ℕ → ElementPage
page_at id =
    if id == 3
    then root_page
    else if id == 4
    then first_page
    else if id == 6
    then last_page
    else empty_page

abbrev pub tree : Bucket
tree = record {
  root = 3;
  sequence = 0;
  page = none;
  root_node = none;
  has_nodes = true;
  nodes = λ id. none;
  parents = λ id. none;
  children = λ id. [];
  tx_open = true;
  writable = true;
  tx_page = page_at;
  high = 10;
  node_count = 0;
}

abbrev pub fetch : ℕ → Result Panic View
fetch = page_node tree

pub fetch-root : fetch 3 ≡ ok (of_page root_page)
unfolding page_node
fetch-root = refl

pub sample-IsTree : IsTree fetch 1 (of_page root_page)
unfolding page_node count is_leaf elements
sample-IsTree = inr (
  refl,
  omega arith,
  (
    (of_page first_page, refl, refl),
    ((of_page empty_page, refl, refl), ((of_page last_page, refl, refl), tt)),
  ),
)

-- A page whose elements are searched.
leaf-IsSearchable :
    (v w : View)
    → ◌≡◌ {A = Result Panic View} (ok v) (ok w)
    → IsSearchable fetch 0 v
    → IsSearchable fetch 0 w
leaf-IsSearchable v w e s = let same : v ≡ w = cc in subst (IsSearchable fetch 0) same s

pub sample-IsSearchable : IsSearchable fetch 1 (of_page root_page)
unfolding page_node is_invalid is_leaf elements compare_bytes collect
sample-IsSearchable = (
  refl,
  ((refl, (refl, tt)), ((refl, tt), (tt, tt))),
  ((refl, (refl, tt)), tt, (tt, (refl, (refl, tt)), tt)),
  (
    λ w e. leaf-IsSearchable (of_page first_page) w e (refl, ((refl, tt), (tt, tt))),
    (
      λ w e. leaf-IsSearchable (of_page empty_page) w e (refl, tt),
      (λ w e. leaf-IsSearchable (of_page last_page) w e (refl, ((refl, tt), (tt, tt))), tt),
    ),
  ),
)

pub sample-IsOrdered : IsOrdered tree 1 (of_page root_page)
sample-IsOrdered = record {
  is_open = refl;
  is_root = fetch-root;
  is_tree = sample-IsTree;
  is_searchable = sample-IsSearchable;
}

pub sample-IsWritable : IsWritable tree
sample-IsWritable = record {
  has_cache = refl;
  not_inline = refl;
  no_page = refl;
  named = λ id n e. cc;
}

pub sample-IsGood : IsGood fetch (IsReadable tree) 1 3 (of_page root_page)
unfolding keyed elements
sample-IsGood = (
  (refl, refl),
  λ branch. (λ w e. (refl, refl), (λ w e. (refl, refl), (λ w e. (refl, refl), tt))),
)

-- What the tree has for each key.
abbrev pub sample_items : Elements
sample_items j = find j (items_of fetch 1 (of_page root_page))

pub sample-Represents : Represents tree 2 1 sample_items
sample-Represents =
    items-Represents tree 2 1 (of_page root_page) sample-IsOrdered sample-IsWritable sample-IsGood
      (omega arith) refl (omega arith)
