-- ===== src/Bucket/Kept.antt =====
-- A bucket stays sound when a leaf of it is changed.
use bolt_analysis.Prelude.{
  length, ℕ, zero, suc, ◌<◌, ◌≡◌, refl, sym, ap, ◌∙◌, subst, true, inl, inr, Option, none, ◌∷◌, All,
  All-mono, if◌then◌else◌,
}
use bolt_analysis.Prelude.Results.{Result, ok, ◌>>=◌}
use bolt_analysis.Panics.{Panic}
use bolt_analysis.Errors.{Error}
use bolt_analysis.Bytes.{Bytes, equal}
use bolt_analysis.Node.{Inode, Node}
use bolt_analysis.Node.Keys.{IsAscending, find}
use bolt_analysis.Pages.{View, elements, count}
use bolt_analysis.Cursor.Search.Chain.{IsNavigable}
use bolt_analysis.Bucket.{ElementPage, Bucket, page_node}
use bolt_analysis.Bucket.Nodes.{keyed}
use bolt_analysis.Bucket.Pairs.{change, change_at}
use bolt_analysis.Bucket.Loaded.{ok-injective, fixed, set_at-HasNames}
use bolt_analysis.Bucket.Path.{IsReadable, IsAt-view, cursor_node-IsAt, node_of-some}
use bolt_analysis.Bucket.Entries.{entry}
use bolt_analysis.Bucket.Changed.{
  IsChange, IsSound, reached, Edit, edited, not_inline, IsKept, edited-IsKept, edited-entry,
}

module _ (b : Bucket) (height h : ℕ) (c : IsSound b h) (deep : h < height) (key : Bytes)
    (new : Option Inode) (e : Edit b height h c deep key new) where
  kept : (i : ℕ) (x : View) → page_node b i ≡ ok x → IsKept b height h c deep key new e i x
  kept i x found = edited-IsKept b height h c deep key new e i x found

  after : Bucket
  after = edited b height h c deep key new e

  IsReadable-after : (i : ℕ) → IsReadable b i → IsReadable after i
  unfolding after edited
  IsReadable-after i good =
      subst (λ (f : ℕ → ElementPage). (keyed (f i).elements ≡ true) × ((f i).id ≡ i))
        (sym (ap (λ f. f.3) e.loaded.same_fixed)) good

  after-IsNavigable :
      (k i : ℕ) (x y : View)
      → page_node b i ≡ ok x
      → page_node after i ≡ ok y
      → IsNavigable (page_node b) (IsReadable b) k i x
      → IsNavigable (page_node after) (IsReadable after) k i y
  unfolding after count
  after-IsNavigable zero i x y found found' (good, valid, s, l) =
      let q = kept i x found in
      let same : q.alike.other ≡ y = ok-injective (sym q.alike.is_found ∙ found') in
      subst (IsNavigable (page_node after) (IsReadable after) zero i) same
        (IsReadable-after i good, q.alike.same_validity valid, q.sorted s, q.alike.same_kind ∙ l)
  after-IsNavigable (suc k) i x y found found' (good, valid, s, inl l) =
      let q = kept i x found in
      let same : q.alike.other ≡ y = ok-injective (sym q.alike.is_found ∙ found') in
      subst (IsNavigable (page_node after) (IsReadable after) (suc k) i) same (
        IsReadable-after i good,
        q.alike.same_validity valid,
        q.sorted s,
        inl (q.alike.same_kind ∙ l),
      )
  after-IsNavigable (suc k) i x y found found' (good, valid, s, inr (branch, pos, kids)) =
      let q = kept i x found in
      let same : q.alike.other ≡ y = ok-injective (sym q.alike.is_found ∙ found') in
      let es = q.alike.same_branch branch in
      subst (IsNavigable (page_node after) (IsReadable after) (suc k) i) same (
        IsReadable-after i good,
        q.alike.same_validity valid,
        q.sorted s,
        inr (
          q.alike.same_kind ∙ branch,
          subst (λ xs. 0 < length xs) (sym es) pos,
          subst
              (All (λ d.
                (w : View) × (page_node after d.pgid ≡ ok w)
                × IsNavigable (page_node after) (IsReadable after) k d.pgid w))
              (sym es)
              (All-mono _ _ (elements x)
                (λ d (w, at, n).
                  let p = kept d.pgid w at in
                  (
                    p.alike.other,
                    p.alike.is_found,
                    after-IsNavigable k d.pgid w p.alike.other at p.alike.is_found n,
                  ))
                kids),
        ),
      )

  after-IsSound : IsSound after h
  unfolding after edited
  after-IsSound =
      let q = kept b.root c.view c.is_root in
      let f = e.loaded.same_fixed in
      record {
        view = q.alike.other;
        is_open = ap (λ t. t.4) f ∙ c.is_open;
        is_root = ap (page_node after) (ap (λ t. t.0) f) ∙ q.alike.is_found;
        loadable = record {
          has_cache = ap (λ t. t.1) f ∙ c.loadable.has_cache;
          not_inline = not_inline b height h c deep key new e;
          no_page = ap (λ t. t.2) f ∙ c.loadable.no_page;
          named =
              set_at-HasNames e.loaded.after.nodes (reached b height h c deep key).id e.node e.name
                e.loaded.names;
        };
        navigable =
            subst (λ r. IsNavigable (page_node after) (IsReadable after) h r q.alike.other)
              (sym (ap (λ t. t.0) f))
              (after-IsNavigable h b.root c.view q.alike.other c.is_root q.alike.is_found
                c.navigable);
      }

-- A change at one key that has ended: the bucket is sound, with the new element there.
pub record IsChanged (b : Bucket) (height h : ℕ) (key : Bytes) (new : Option Inode)
    (found : Result Panic (Bucket × Option Error)) : Type 0 where
  pub after : Bucket
  pub is_found : found ≡ ok (after, none)
  pub same_fixed : fixed after ≡ fixed b
  pub sound : IsSound after h
  pub entries :
      (j : Bytes) → entry after height j ≡ (if equal key j then ok new else entry b height j)

pub change_at-IsChanged :
    (b : Bucket) (height h : ℕ) (c : IsSound b h) (deep : h < height) (key : Bytes)
    (new : Option Inode) (f : Node → Result Panic Node)
    → IsChange key new f
    → IsChanged b height h key new (
        change_at f ((reached b height h c deep key).top ∷ (reached b height h c deep key).below) b)
unfolding change_at change edited after
change_at-IsChanged b height h c deep key new f is_change =
    let r = reached b height h c deep key in
    let a = cursor_node-IsAt b c.loadable r.top r.below r.id r.is_view r.good r.under r.at_leaf in
    let (kind, inodes) = IsAt-view b c.loadable r.id r.top.view r.is_view a in
    let (n', is_f, leaf, name, ascending, finds) =
      is_change a.leaf (kind ∙ r.at_leaf) (subst IsAscending (sym inodes) r.ascending) in
    let node = node_of-some b c.loadable r.id a.after a.leaf a.is_cached in
    let e : Edit b height h c deep key new = record {
      node = n';
      is_kept = leaf;
      loaded = a;
      name = name ∙ a.names r.id a.leaf a.is_cached;
      ascending = ascending;
      finds =
          subst (λ xs. (j : Bytes) → find j n'.inodes ≡ (if equal key j then new else find j xs))
            inodes finds;
    } in
    record {
      after = edited b height h c deep key new e;
      is_found = ap (λ q. q >>= change f) a.is_found ∙ rw (node, is_f) refl;
      same_fixed = a.same_fixed;
      sound = after-IsSound b height h c deep key new e;
      entries = edited-entry b height h c deep key new e;
    }
