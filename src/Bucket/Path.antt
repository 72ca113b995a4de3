-- ===== src/Bucket/Path.antt =====
-- `Cursor.node` loads the nodes from the root down to the leaf of the cursor.
use bolt_analysis.Prelude.{
  ℕ, ◌≡◌, refl, sym, ap, ◌∙◌, subst, true, false, Option, none, some, List, [], ◌∷◌, ◌==◌,
  get_elem?,
}
use bolt_analysis.Prelude.Results.{Result, ok, ◌>>=◌}
use bolt_analysis.Panics.{Panic}
use bolt_analysis.Node.{Inode, Node}
use bolt_analysis.Pages.{View, of_node, is_leaf, elements}
use bolt_analysis.Cursor.{Ref, Stack}
use bolt_analysis.Cursor.Search.Chain.{IsUnder}
use bolt_analysis.Bucket.{Bucket, page_node, cached_view}
use bolt_analysis.Bucket.Nodes.{
  node, keyed, node_of, inode_at, child_at, root_of, below_branch, descend, leaf_only, at_top,
  cursor_node,
}
use bolt_analysis.Bucket.Loaded.{
  HasNames, IsSame, refl-IsSame, trans-IsSame, ok-injective, page_node-cached, fixed, node-IsLoaded,
}

-- A page that a node can be read from.
abbrev pub IsReadable : Bucket → ℕ → Type 0
IsReadable b id = (keyed (b.tx_page id).elements ≡ true) × ((b.tx_page id).id ≡ id)

-- A bucket that is not inline, of a writable transaction, with its nodes under their ids.
pub record IsWritable (b : Bucket) : Type 0 where
  pub has_cache : b.has_nodes ≡ true
  pub not_inline : (b.root == 0) ≡ false
  pub no_page : b.page ≡ none
  pub named : HasNames b.nodes

-- A node that is loaded under an id, with what every id leads to left as it is.
pub record IsAt (b : Bucket) (id : ℕ) (found : Result Panic (ℕ × Bucket)) : Type 0 where
  pub after : Bucket
  pub leaf : Node
  pub is_found : found ≡ ok (id, after)
  pub same_fixed : fixed after ≡ fixed b
  pub is_cached : after.nodes id ≡ some leaf
  pub same_views : (i : ℕ) → IsSame (page_node b i) (page_node after i)
  pub names : HasNames after.nodes

module _ (b : Bucket) (w : IsWritable b) where
  page_node_refl : (i : ℕ) → IsSame (page_node b i) (page_node b i)
  page_node_refl i =
      rw (page_node-cached b i w.not_inline) (refl-IsSame (cached_view (b.nodes i) (b.tx_page i)))

  -- The node that is loaded shows what its id has led to.
  pub IsAt-view :
      (id : ℕ) (v : View) {found : Result Panic (ℕ × Bucket)}
      → page_node b id ≡ ok v
      → (a : IsAt b id found) → (a.leaf.is_leaf ≡ is_leaf v) × (a.leaf.inodes ≡ elements v)
  unfolding is_leaf elements cached_view
  IsAt-view id v found a =
      let s = a.same_views id in
      let inline : (a.after.root == 0) ≡ false = ap (λ f. f.0 == 0) a.same_fixed ∙ w.not_inline in
      let shown : page_node a.after id ≡ ok (of_node a.leaf) =
        page_node-cached a.after id inline
        ∙ ap (λ o. ok (cached_view o (a.after.tx_page id))) a.is_cached in
      let new : s.new ≡ of_node a.leaf = ok-injective (sym s.is_after ∙ shown) in
      let old : s.old ≡ v = ok-injective (sym s.is_before ∙ found) in
      (
        ap is_leaf (sym new) ∙ s.same_kind ∙ ap is_leaf old,
        ap elements (sym new) ∙ s.same_elements ∙ ap elements old,
      )

  -- A load of one more node.
  node-IsAt :
      (a : Bucket)
      → fixed a ≡ fixed b
      → ((i : ℕ) → IsSame (page_node b i) (page_node a i))
      → HasNames a.nodes
      → (id k : ℕ) (parent : Option ℕ) → k ≡ id
      → IsReadable b id
      → IsAt b id (node k parent a >>= λ a'. ok (k, a'))
  node-IsAt a same views names id k parent e good =
      let keys : keyed (a.tx_page id).elements ≡ true =
        ap (λ f. keyed (f.3 id).elements) same ∙ good.0 in
      let l =
        node-IsLoaded a id parent (ap (λ f. f.1) same ∙ w.has_cache)
          (ap (λ f. f.0 == 0) same ∙ w.not_inline) (ap (λ f. f.2) same ∙ w.no_page) keys in
      subst (λ k. IsAt b id (node k parent a >>= λ a'. ok (k, a'))) (sym e)
        record {
          after = l.after;
          leaf = l.is_cached.0;
          is_found = rw l.is_found;
          same_fixed = l.same_fixed ∙ same;
          is_cached = l.is_cached.1;
          same_views = λ i. trans-IsSame (views i) (l.same_views i);
          names = l.names (ap (λ f. (f.3 id).id) same ∙ good.1) names;
        }

  root_of-IsAt :
      (id : ℕ) (o : Option Node)
      → b.nodes id ≡ o
      → IsReadable b id
      → IsAt b id (root_of (cached_view o (b.tx_page id)) b)
  unfolding root_of cached_view
  root_of-IsAt id (some n) at good = record {
    after = b;
    leaf = n;
    is_found = ap (λ k. ok (k, b)) (w.named id n at);
    same_fixed = refl;
    is_cached = at;
    same_views = page_node_refl;
    names = w.named;
  }
  root_of-IsAt id none at good =
      node-IsAt b refl page_node_refl w.named id (b.tx_page id).id none good.1 good

  pub node_of-some : (id : ℕ) (a : Bucket) (n : Node) → a.nodes id ≡ some n → node_of id a ≡ ok n
  unfolding node_of
  node_of-some id a n at = rw (at, node_of)

  inode_at-some :
      (index : ℕ) (xs : List Inode) (e : Inode)
      → get_elem? xs index ≡ some e
      → inode_at index xs ≡ ok e
  unfolding inode_at
  inode_at-some index xs e at = rw (at, inode_at)

  child_at-eq :
      (id index : ℕ) (a : Bucket) (n : Node) (e : Inode)
      → a.nodes id ≡ some n
      → n.is_leaf ≡ false
      → get_elem? n.inodes index ≡ some e
      → below_branch index (id, a) ≡ (node e.pgid (some id) a >>= λ a'. ok (e.pgid, a'))
  unfolding below_branch child_at
  child_at-eq id index a n e at branch there =
      let found = node_of-some id a n at in
      let inside = inode_at-some index n.inodes e there in rw (found, branch, inside) refl

  descend-IsAt :
      (r : Ref) (refs : Stack) (id : ℕ)
      → page_node b id ≡ ok r.view
      → IsReadable b id
      → IsUnder (page_node b) (IsReadable b) b.root id refs
      → IsAt b id (descend (r ∷ refs) b)
  unfolding descend
  descend-IsAt r [] id found good u =
      let v : cached_view (b.nodes id) (b.tx_page id) ≡ r.view =
        ok-injective (sym (page_node-cached b id w.not_inline) ∙ found) in
      subst (λ x. IsAt b id (root_of x b)) v (root_of-IsAt id (b.nodes id) refl good)
  descend-IsAt r (r' ∷ refs) id found good (parent, e, found', good', branch, at, is_id, u) =
      let a = descend-IsAt r' refs parent found' good' u in
      let (kind, inodes) = IsAt-view parent r'.view found' a in
      let step =
        child_at-eq parent r'.index a.after a.leaf e a.is_cached (kind ∙ branch)
          (ap (λ xs. get_elem? xs r'.index) inodes ∙ at) in
      rw (a.is_found, step)
        (node-IsAt a.after a.same_fixed a.same_views a.names id e.pgid (some parent) is_id good)

  leaf_only-eq :
      (id : ℕ) (a : Bucket) (n : Node)
      → a.nodes id ≡ some n
      → n.is_leaf ≡ true
      → leaf_only (id, a) ≡ ok (id, a)
  unfolding leaf_only
  leaf_only-eq id a n at leaf = let found = node_of-some id a n at in rw (found, leaf) refl

  below-IsAt :
      (r : Ref) (refs : Stack) (id : ℕ)
      → page_node b id ≡ ok r.view
      → IsReadable b id
      → IsUnder (page_node b) (IsReadable b) b.root id refs
      → is_leaf r.view ≡ true
      → IsAt b id (descend (r ∷ refs) b >>= leaf_only)
  below-IsAt r refs id found good u l =
      let a = descend-IsAt r refs id found good u in
      let (kind, inodes) = IsAt-view id r.view found a in
      record {
        after = a.after;
        leaf = a.leaf;
        is_found = rw a.is_found (leaf_only-eq id a.after a.leaf a.is_cached (kind ∙ l));
        same_fixed = a.same_fixed;
        is_cached = a.is_cached;
        same_views = a.same_views;
        names = a.names;
      }

  at_top-IsAt :
      (id : ℕ) (o : Option Node) (q : Result Panic (ℕ × Bucket))
      → b.nodes id ≡ o
      → is_leaf (cached_view o (b.tx_page id)) ≡ true
      → IsAt b id (q >>= leaf_only)
      → IsAt b id (at_top (cached_view o (b.tx_page id)) q b)
  unfolding at_top cached_view is_leaf
  at_top-IsAt id none q at l a = a
  at_top-IsAt id (some n) q at l a = rw l record {
    after = b;
    leaf = n;
    is_found = ap (λ k. ok (k, b)) (w.named id n at);
    same_fixed = refl;
    is_cached = at;
    same_views = page_node_refl;
    names = w.named;
  }

  -- At a leaf whose way from the root is known.
  pub cursor_node-IsAt :
      (r : Ref) (refs : Stack) (id : ℕ)
      → page_node b id ≡ ok r.view
      → IsReadable b id
      → IsUnder (page_node b) (IsReadable b) b.root id refs
      → is_leaf r.view ≡ true
      → IsAt b id (cursor_node (r ∷ refs) b)
  unfolding cursor_node
  cursor_node-IsAt r refs id found good u l =
      let v : cached_view (b.nodes id) (b.tx_page id) ≡ r.view =
        ok-injective (sym (page_node-cached b id w.not_inline) ∙ found) in
      subst (λ x. IsAt b id (at_top x (descend (r ∷ refs) b) b)) v
        (at_top-IsAt id (b.nodes id) (descend (r ∷ refs) b) refl (ap is_leaf v ∙ l)
          (below-IsAt r refs id found good u l))
