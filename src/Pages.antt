-- ===== src/Pages.antt =====
-- page.go and bucket.go: what a page id of a bucket leads to, a page of the tree or a node that is
-- loaded. The elements of a page, which lie behind its header, are read as inodes: a branch element
-- has a page id and a key, and a leaf element has flags, a key and a value.
use bolt_analysis.Prelude.{ℕ, Bool, List, length}
use bolt_analysis.Page.{has_flag, leaf_page_flag}
use bolt_analysis.Node.{Inode, Node}

pub record ElementPage : Type 0 where
  pub id : ℕ
  pub flags : ℕ
  pub overflow : ℕ
  pub elements : List Inode

-- The page or the node of an `elemRef`.
pub data View : Type 0 where
  of_page : ElementPage → View
  of_node : Node → View

-- `r.isLeaf()`
unfoldable pub is_leaf : View → Bool
is_leaf (of_page p) = has_flag p.flags leaf_page_flag
is_leaf (of_node n) = n.is_leaf

-- The elements that an index of an `elemRef` counts.
unfoldable pub elements : View → List Inode
elements (of_page p) = p.elements
elements (of_node n) = n.inodes

-- `r.count()`
unfoldable pub count : View → ℕ
unfolding elements
count v = length (elements v)
