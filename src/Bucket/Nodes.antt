-- ===== src/Bucket/Nodes.antt =====
-- bucket.go, node.go and cursor.go: `Bucket.node`, `node.read`, `node.childAt` and `Cursor.node`, which
-- load the nodes from the root down to the leaf of a cursor.
use bolt_analysis.Prelude.{
  ℕ, ◌+◌, Bool, true, false, not, List, [], ◌∷◌, ◌++◌, Option, none, some, length, ◌==◌, ◌&&◌,
  if◌then◌else◌, get_elem?,
}
use bolt_analysis.Prelude.Results.{Result, ok, err, ◌>>=◌}
use bolt_analysis.Page.{has_flag, leaf_page_flag}
use bolt_analysis.Panics.{
  Panic, index_out_of_range, nil_pointer, nodes_map_expected, empty_stack, expected_branch_node,
  expected_leaf_node, invalid_child_at, zero_inode_key,
}
use bolt_analysis.Node.{Inode, Node}
use bolt_analysis.Node.Disk.{first_key}
use bolt_analysis.Pages.{ElementPage, View, of_page, of_node}
use bolt_analysis.Cursor.{Stack}
use bolt_analysis.Bucket.{Bucket}

-- The assertion on each key that `read` copies.
unfoldable pub keyed : List Inode → Bool
keyed [] = true
keyed (x ∷ xs) = not (length x.key == 0) && keyed xs

-- `n.read(p)` of a new node
unfoldable pub read : ElementPage → Result Panic Node
unfolding keyed
read p =
    if keyed p.elements
    then ok record {
      is_leaf = has_flag p.flags leaf_page_flag;
      unbalanced = false;
      spilled = false;
      key = first_key p.elements;
      pgid = p.id;
      inodes = p.elements;
    }
    else err zero_inode_key

abbrev pub set_at {ℓ} : {A : Type ℓ} → (ℕ → A) → ℕ → A → ℕ → A
set_at f k a i = if i == k then a else f i

-- The page that `node` reads: the inline page if there is one.
unfoldable pub source_page : Option ElementPage → ElementPage → ElementPage
source_page (some p) q = p
source_page none q = q

-- A new node hangs on its parent, or is the root.
unfoldable pub linked : ℕ → Option ℕ → Bucket → Bucket
linked pgid none b = record b { root_node = some pgid }
linked pgid (some parent) b = record b {
  children = set_at b.children parent (b.children parent ++ pgid ∷ []);
  parents = set_at b.parents pgid (some parent);
}

-- The bucket with a node in the cache that it has not had.
unfoldable pub stored : ℕ → Option ℕ → Bucket → Node → Bucket
unfolding linked
stored pgid parent b n =
    let b' = linked pgid parent b in
    record b' { nodes = set_at b'.nodes pgid (some n); node_count = b'.node_count + 1 }

unfoldable pub loaded : ℕ → Option ℕ → Bucket → Option Node → Result Panic Bucket
unfolding stored source_page
loaded pgid parent b (some n) = ok b
loaded pgid parent b none =
    read (source_page b.page (b.tx_page pgid)) >>= λ n. ok (stored pgid parent b n)

-- `b.node(pgid, parent)`: the node is the one with the id then.
unfoldable pub node : ℕ → Option ℕ → Bucket → Result Panic Bucket
unfolding loaded
node pgid parent b =
    if not b.has_nodes then err nodes_map_expected else loaded pgid parent b (b.nodes pgid)

-- A node of the cache.
unfoldable pub node_of : ℕ → Bucket → Result Panic Node
node_of id b = elim (b.nodes id) [ none ↦ err nil_pointer | some n ↦ ok n ]

unfoldable pub inode_at : ℕ → List Inode → Result Panic Inode
inode_at index inodes = elim (get_elem? inodes index) [
  | none ↦ err index_out_of_range
  | some e ↦ ok e
]

-- `n.childAt(index)` of the node with the id: the id of the child.
unfoldable pub child_at : ℕ → ℕ → Bucket → Result Panic (ℕ × Bucket)
unfolding inode_at
child_at id index b = do
  n ← node_of id b
  e ← (if n.is_leaf then err (invalid_child_at index) else inode_at index n.inodes)
  b' ← node e.pgid (some id) b
  ok (e.pgid, b')

-- The root of `c.stack[0]`.
unfoldable pub root_of : View → Bucket → Result Panic (ℕ × Bucket)
root_of (of_node n) b = ok (n.pgid, b)
root_of (of_page p) b = node p.id none b >>= λ b'. ok (p.id, b')

unfoldable pub below_branch : ℕ → ℕ × Bucket → Result Panic (ℕ × Bucket)
below_branch index (id, b) = do
  n ← node_of id b
  if n.is_leaf then err expected_branch_node else child_at id index b

-- From the root down along the indices of the stack.
unfoldable pub descend : Stack → Bucket → Result Panic (ℕ × Bucket)
unfolding root_of below_branch
descend [] b = err empty_stack
descend (r ∷ []) b = root_of r.view b
descend (r ∷ r' ∷ refs) b = descend (r' ∷ refs) b >>= below_branch r'.index

unfoldable pub leaf_only : ℕ × Bucket → Result Panic (ℕ × Bucket)
leaf_only (id, b) = do n ← node_of id b; if n.is_leaf then ok (id, b) else err expected_leaf_node

unfoldable pub at_top : View → Result Panic (ℕ × Bucket) → Bucket → Result Panic (ℕ × Bucket)
unfolding leaf_only
at_top (of_page p) below b = below >>= leaf_only
at_top (of_node n) below b = if n.is_leaf then ok (n.pgid, b) else (below >>= leaf_only)

-- `c.node()`: the id of the node.
unfoldable pub cursor_node : Stack → Bucket → Result Panic (ℕ × Bucket)
unfolding descend at_top
cursor_node [] b = err empty_stack
cursor_node (r ∷ refs) b = at_top r.view (descend (r ∷ refs) b) b
