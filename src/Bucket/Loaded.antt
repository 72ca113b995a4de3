-- ===== src/Bucket/Loaded.antt =====
-- A node that is loaded shows what its page shows.
use bolt_analysis.Prelude.{
  Bool, subst, ℕ, ◌≡◌, refl, sym, ap, ◌∙◌, arith, Bool-cases, true, false, not, inl, inr, Option,
  none, some, ◌==◌, if◌then◌else◌,
}
use bolt_analysis.Prelude.Results.{Result, ok, err, ◌>>=◌}
use bolt_analysis.Panics.{nodes_map_expected, Panic}
use bolt_analysis.Node.{Node}
use bolt_analysis.Node.Disk.{first_key}
use bolt_analysis.Pages.{ElementPage, View, of_page, of_node, is_leaf, elements}
use bolt_analysis.Bucket.{Bucket, page_node, cached_view}
use bolt_analysis.Bucket.Nodes.{stored, node, loaded, linked, source_page, read, keyed, set_at}
use bolt_analysis.Page.{leaf_page_flag, has_flag}
use bolt_analysis.Cursor.Search.{is_invalid}

-- Two results that are views with the same kind and the same elements.
pub record IsSame (before after : Result Panic View) : Type 0 where
  pub old : View
  pub new : View
  pub is_before : before ≡ ok old
  pub is_after : after ≡ ok new
  pub same_kind : is_leaf new ≡ is_leaf old
  pub same_elements : elements new ≡ elements old
  pub same_validity : is_invalid old ≡ false → is_invalid new ≡ false

pub ok-injective : {v w : View} → ◌≡◌ {A = Result Panic View} (ok v) (ok w) → v ≡ w
ok-injective e = cc

some-injective : {n m : Node} → ◌≡◌ {A = Option Node} (some n) (some m) → n ≡ m
some-injective e = cc

pub refl-IsSame : (v : View) → IsSame (ok v) (ok v)
refl-IsSame v = record {
  old = v;
  new = v;
  is_before = refl;
  is_after = refl;
  same_kind = refl;
  same_elements = refl;
  same_validity = λ e. e;
}

pub trans-IsSame : {x y z : Result Panic View} → IsSame x y → IsSame y z → IsSame x z
trans-IsSame p q =
    let same : p.new ≡ q.old = ok-injective (sym p.is_after ∙ q.is_before) in
    record {
      old = p.old;
      new = q.new;
      is_before = p.is_before;
      is_after = q.is_after;
      same_kind = q.same_kind ∙ ap is_leaf (sym same) ∙ p.same_kind;
      same_elements = q.same_elements ∙ ap elements (sym same) ∙ p.same_elements;
      same_validity =
          λ e. q.same_validity (subst (λ v. is_invalid v ≡ false) same (p.same_validity e));
    }

-- What `page_node` sees of a bucket that is not inline.
pub page_node-cached :
    (b : Bucket) (id : ℕ)
    → (b.root == 0) ≡ false
    → page_node b id ≡ ok (cached_view (b.nodes id) (b.tx_page id))
unfolding page_node
page_node-cached b id e = rw e

-- What `read` makes of a page.
read-IsSame :
    (p : ElementPage)
    → keyed p.elements ≡ true
    → (n : Node) × (read p ≡ ok n) × (n.pgid ≡ p.id) × IsSame (ok (of_page p)) (ok (of_node n))
unfolding read is_leaf elements is_invalid
read-IsSame p k =
    let n : Node = record {
      is_leaf = has_flag p.flags leaf_page_flag;
      unbalanced = false;
      spilled = false;
      key = first_key p.elements;
      pgid = p.id;
      inodes = p.elements;
    } in
    (
      n,
      rw k,
      refl,
      record {
        old = of_page p;
        new = of_node n;
        is_before = refl;
        is_after = refl;
        same_kind = refl;
        same_elements = refl;
        same_validity = λ e. refl;
      },
    )

module _ (nodes : ℕ → Option Node) (pages : ℕ → ElementPage) (pgid : ℕ) (n : Node) where
  cached-IsSame :
      nodes pgid ≡ none
      → IsSame (ok (of_page (pages pgid))) (ok (of_node n))
      → (id : ℕ)
      → IsSame
          (ok (cached_view (nodes id) (pages id)))
          (ok (cached_view (set_at nodes pgid (some n) id) (pages id)))
  unfolding cached_view
  cached-IsSame absent same id = elim (Bool-cases (id == pgid)) [
    | inl here ↦
        let at : id ≡ pgid = ground arith in
        rw (here) (
          subst (λ i. IsSame (ok (cached_view (nodes i) (pages i))) (ok (of_node n))) (sym at)
            (rw absent same))
    | inr other ↦ rw other (refl-IsSame (cached_view (nodes id) (pages id)))
  ]

-- What a load of a node leaves alone.
abbrev pub fixed : Bucket → ℕ × Bool × Option ElementPage × (ℕ → ElementPage) × Bool × Bool × ℕ
fixed b = (b.root, b.has_nodes, b.page, b.tx_page, b.tx_open, b.writable, b.high)

-- Every node of a cache has the id that it is under.
abbrev pub HasNames : (ℕ → Option Node) → Type 0
HasNames nodes = (id : ℕ) (n : Node) → nodes id ≡ some n → n.pgid ≡ id

pub set_at-HasNames :
    (nodes : ℕ → Option Node) (k : ℕ) (n : Node)
    → n.pgid ≡ k
    → HasNames nodes
    → HasNames (set_at nodes k (some n))
set_at-HasNames nodes k n e names id m at = elim (Bool-cases (id == k)) [
  | inl here ↦
      let place : id ≡ k = ground arith in
      let same : n ≡ m = some-injective (rw here at at) in
      ap (λ x. x.pgid) (sym same) ∙ e ∙ sym place
  | inr other ↦ names id m (rw other at at)
]

pub record IsLoaded (pgid : ℕ) (b : Bucket) (found : Result Panic Bucket) : Type 0 where
  pub after : Bucket
  pub is_found : found ≡ ok after
  pub same_fixed : fixed after ≡ fixed b
  pub is_cached : (n : Node) × (after.nodes pgid ≡ some n)
  pub same_views : (id : ℕ) → IsSame (page_node b id) (page_node after id)
  pub names : (b.tx_page pgid).id ≡ pgid → HasNames b.nodes → HasNames after.nodes

-- A bucket to which a node is added.
added-IsLoaded :
    (b after : Bucket) (pgid : ℕ) (n : Node)
    → fixed after ≡ fixed b
    → after.nodes ≡ set_at b.nodes pgid (some n)
    → (b.root == 0) ≡ false
    → b.nodes pgid ≡ none
    → n.pgid ≡ (b.tx_page pgid).id
    → IsSame (ok (of_page (b.tx_page pgid))) (ok (of_node n))
    → IsLoaded pgid b (ok after)
added-IsLoaded b after pgid n same_fixed nodes r absent name same =
    let root = ap (λ f. f.0) same_fixed in
    let pages = ap (λ f. f.3) same_fixed in
    let self : (pgid == pgid) ≡ true = ground arith in
    record {
      after = after;
      is_found = refl;
      same_fixed = same_fixed;
      is_cached = (n, ap (λ f. f pgid) nodes ∙ rw self refl);
      same_views = λ id.
          rw (page_node-cached b id r, page_node-cached after id (rw root r), nodes, pages)
            (cached-IsSame b.nodes b.tx_page pgid n absent same id);
      names = λ e h. subst HasNames (sym nodes) (set_at-HasNames b.nodes pgid n (name ∙ e) h);
    }

stored-IsLoaded :
    (b : Bucket) (pgid : ℕ) (parent : Option ℕ) (n : Node)
    → (b.root == 0) ≡ false
    → b.nodes pgid ≡ none
    → n.pgid ≡ (b.tx_page pgid).id
    → IsSame (ok (of_page (b.tx_page pgid))) (ok (of_node n))
    → IsLoaded pgid b (ok (stored pgid parent b n))
unfolding stored linked
stored-IsLoaded b pgid none n r at name same = added-IsLoaded b _ pgid n refl refl r at name same
stored-IsLoaded b pgid (some parent) n r at name same =
    added-IsLoaded b _ pgid n refl refl r at name same

loaded-IsLoaded :
    (b : Bucket) (pgid : ℕ) (parent : Option ℕ) (o : Option Node)
    → (b.root == 0) ≡ false
    → b.page ≡ none
    → keyed (b.tx_page pgid).elements ≡ true
    → b.nodes pgid ≡ o
    → IsLoaded pgid b (loaded pgid parent b o)
unfolding loaded source_page
loaded-IsLoaded b pgid parent (some n) r p k at = record {
  after = b;
  is_found = refl;
  same_fixed = refl;
  is_cached = (n, at);
  same_views =
      λ id. rw (page_node-cached b id r) (refl-IsSame (cached_view (b.nodes id) (b.tx_page id)));
  names = λ e h. h;
}
loaded-IsLoaded b pgid parent none r p k at =
    let (n, is_read, name, same) = read-IsSame (b.tx_page pgid) k in
    let is_read' = ap (λ o. read (source_page o (b.tx_page pgid))) p ∙ is_read in
    subst (λ q. IsLoaded pgid b (q >>= λ n. ok (stored pgid parent b n))) (sym is_read')
      (stored-IsLoaded b pgid parent n r at name same)

-- In a writable transaction, for a bucket that is not inline and a page whose keys are not empty:
-- `node` gives a node for the page, and every page id still leads to the same elements.
pub node-IsLoaded :
    (b : Bucket) (pgid : ℕ) (parent : Option ℕ)
    → b.has_nodes ≡ true
    → (b.root == 0) ≡ false
    → b.page ≡ none
    → keyed (b.tx_page pgid).elements ≡ true
    → IsLoaded pgid b (node pgid parent b)
unfolding node loaded
node-IsLoaded b pgid parent h r p k =
    subst
      (λ t.
        IsLoaded pgid b
          (if not t then err nodes_map_expected else loaded pgid parent b (b.nodes pgid)))
      (sym h) (loaded-IsLoaded b pgid parent (b.nodes pgid) r p k refl)
