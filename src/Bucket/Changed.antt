-- ===== src/Bucket/Changed.antt =====
-- What is found in a bucket after a change of the node of the cursor.
use bolt_analysis.Prelude.{
  ℕ, ◌<◌, ◌≡◌, refl, sym, ap, ◌∙◌, subst, arith, Bool-cases, true, false, inl, inr, Option, some,
  [], ◌∷◌, ◌==◌, if◌then◌else◌, get_elem?,
}
use bolt_analysis.Prelude.Results.{Result, ok}
use bolt_analysis.Panics.{Panic}
use bolt_analysis.Bytes.{Bytes, equal, equal_iff}
use bolt_analysis.Node.{Inode, Node, search_key}
use bolt_analysis.Node.Keys.{IsAscending, find, place}
use bolt_analysis.Pages.{View, of_node, is_leaf, elements}
use bolt_analysis.Cursor.{at_index, Stack}
use bolt_analysis.Cursor.Tree.{not_both}
use bolt_analysis.Cursor.Search.{search, is_invalid}
use bolt_analysis.Cursor.Search.Chain.{IsNavigable, IsAlike, IsReached, search-IsReached}
use bolt_analysis.Bucket.{Bucket, page_node, cached_view}
use bolt_analysis.Bucket.Nodes.{cursor_node, set_at}
use bolt_analysis.Bucket.Pairs.{sought}
use bolt_analysis.Bucket.Loaded.{ok-injective, page_node-cached}
use bolt_analysis.Bucket.Path.{IsReadable, IsWritable, IsAt}
use bolt_analysis.Bucket.Entries.{sought-leaf, entry, entry-leaf}

-- A change of a leaf at one key: what it has there then.
abbrev pub IsChange : Bytes → Option Inode → (Node → Result Panic Node) → Type 0
IsChange key new f =
    (n : Node)
    → n.is_leaf ≡ true
    → IsAscending n.inodes
    → (n' : Node) × (f n ≡ ok n')
      × (n'.is_leaf ≡ true)
      × (n'.pgid ≡ n.pgid)
      × IsAscending n'.inodes
      × ((j : Bytes) → find j n'.inodes ≡ (if equal key j then new else find j n.inodes))

-- A bucket of an open transaction that is not inline, with nodes under their ids, over a tree of valid
-- pages that can be read, whose keys ascend.
pub record IsSound (b : Bucket) (h : ℕ) : Type 0 where
  pub view : View
  pub is_open : b.tx_open ≡ true
  pub is_root : page_node b b.root ≡ ok view
  pub loadable : IsWritable b
  pub navigable : IsNavigable (page_node b) (IsReadable b) h b.root view

module _ (b : Bucket) (height h : ℕ) (c : IsSound b h) (deep : h < height) where
  pub reached : (key : Bytes) → IsReached (page_node b) (IsReadable b) b.root height key b.root []
  reached key =
      search-IsReached (page_node b) (IsReadable b) h b.root height key b.root [] c.view deep
        c.is_root c.navigable refl

  pub sought-reached :
      (key : Bytes)
      → sought b height key
        ≡ ok (
          (reached key).top ∷ (reached key).below,
          get_elem? (elements (reached key).top.view) (place key (elements (reached key).top.view)),
        )
  sought-reached key =
      let r = reached key in
      let stack = ap (λ i. at_index r.top.view i ∷ r.below) r.at_key in
      sought-leaf b height key r.top.view r.below c.is_open (r.is_found ∙ ap ok stack) r.ascending
      ∙ ap (λ s. ok (s, get_elem? (elements r.top.view) (place key (elements r.top.view))))
          (sym stack)

  pub entry-reached :
      (key : Bytes) → entry b height key ≡ ok (find key (elements (reached key).top.view))
  entry-reached key =
      let r = reached key in
      entry-leaf b height key r.top.view r.below c.is_open
        (r.is_found ∙ ap (λ i. ok (at_index r.top.view i ∷ r.below)) r.at_key) r.ascending

  -- The leaf that a search reaches, loaded, and the node that takes its place.
  pub record Edit (key : Bytes) (new : Option Inode) : Type 0 where
    pub node : Node
    pub is_kept : node.is_leaf ≡ true
    pub loaded : IsAt b (reached key).id (cursor_node ((reached key).top ∷ (reached key).below) b)
    pub name : node.pgid ≡ (reached key).id
    pub ascending : IsAscending node.inodes
    pub finds :
        (j : Bytes)
        → find j node.inodes
          ≡ (if equal key j then new else find j (elements (reached key).top.view))

  module _ (key : Bytes) (new : Option Inode) (e : Edit key new) where
    unfoldable pub edited : Bucket
    edited = record (e.loaded.after) {
      nodes = set_at e.loaded.after.nodes (reached key).id (some e.node);
    }

    pub not_inline : (e.loaded.after.root == 0) ≡ false
    not_inline = ap (λ f. f.0 == 0) e.loaded.same_fixed ∙ c.loadable.not_inline

    edited-view :
        (i : ℕ)
        → page_node edited i
          ≡ ok (
              cached_view
                (set_at e.loaded.after.nodes (reached key).id (some e.node) i)
                (e.loaded.after.tx_page i))
    unfolding edited
    edited-view i = page_node-cached edited i not_inline

    edited-here : page_node edited (reached key).id ≡ ok (of_node e.node)
    unfolding cached_view
    edited-here =
        let self : ((reached key).id == (reached key).id) ≡ true = ground arith in
        edited-view (reached key).id ∙ rw self refl

    edited-other :
        (i : ℕ) → (i == (reached key).id) ≡ false → page_node edited i ≡ page_node e.loaded.after i
    edited-other i ne = edited-view i ∙ rw ne (sym (page_node-cached e.loaded.after i not_inline))

    -- What an id leads to then: the same elements, or the new node.
    pub record IsKept (i : ℕ) (x : View) : Type 0 where
      pub alike : IsAlike x (page_node edited i)
      pub sorted : IsAscending (elements x) → IsAscending (elements alike.other)

    pub edited-IsKept : (i : ℕ) (x : View) → page_node b i ≡ ok x → IsKept i x
    unfolding is_leaf is_invalid elements
    edited-IsKept i x found = elim (Bool-cases (i == (reached key).id)) [
      | inl here ↦
          let at : i ≡ (reached key).id = ground arith in
          let same : (reached key).top.view ≡ x =
            ok-injective (sym (reached key).is_view ∙ ap (page_node b) (sym at) ∙ found) in
          let leaf = ap is_leaf (sym same) ∙ (reached key).at_leaf in
          record {
            alike = record {
              other = of_node e.node;
              is_found = ap (page_node edited) at ∙ edited-here;
              same_kind = e.is_kept ∙ sym leaf;
              same_validity = λ v. refl;
              same_branch = λ branch. absurd (not_both (is_leaf x) branch leaf);
            };
            sorted = λ s. e.ascending;
          }
      | inr other ↦
          let s = e.loaded.same_views i in
          let old : s.old ≡ x = ok-injective (sym s.is_before ∙ found) in
          let same = s.same_elements ∙ ap elements old in
          record {
            alike = record {
              other = s.new;
              is_found = edited-other i other ∙ s.is_after;
              same_kind = s.same_kind ∙ ap is_leaf old;
              same_validity = λ v. s.same_validity (subst (λ y. is_invalid y ≡ false) (sym old) v);
              same_branch = λ branch. same;
            };
            sorted = λ a. subst IsAscending (sym same) a;
          }
    ]

    edited-leaf :
        (j : Bytes) (w : View) (below : Stack)
        → search (page_node edited) height j b.root []
          ≡ ok (at_index w (search_key (elements w) j) ∷ below)
        → IsAscending (elements w)
        → entry edited height j ≡ ok (find j (elements w))
    unfolding edited
    edited-leaf j w below found s =
        entry-leaf edited height j w below (ap (λ f. f.4) e.loaded.same_fixed ∙ c.is_open)
          (subst
            (λ root.
              search (page_node edited) height j root []
              ≡ ok (at_index w (search_key (elements w) j) ∷ below))
            (sym (ap (λ f. f.0) e.loaded.same_fixed)) found)
          s

    -- The key is looked for where it was changed, and any other finds what it has found.
    pub edited-entry :
        (j : Bytes) → entry edited height j ≡ (if equal key j then ok new else entry b height j)
    unfolding elements
    edited-entry j =
        let r = reached j in
        let (w, below, is_w, is_search) =
          r.again (page_node edited) (λ i x found. (edited-IsKept i x found).alike) [] in
        elim (Bool-cases (r.id == (reached key).id)) [
          | inl here ↦
              let at : r.id ≡ (reached key).id = ground arith in
              let is_new : w ≡ of_node e.node =
                ok-injective (sym is_w ∙ ap (page_node edited) at ∙ edited-here) in
              let same : r.top.view ≡ (reached key).top.view =
                ok-injective (sym r.is_view ∙ ap (page_node b) at ∙ (reached key).is_view) in
              let got =
                edited-leaf j w below is_search
                  (subst (λ x. IsAscending (elements x)) (sym is_new) e.ascending) in
              let found = got ∙ ap (λ x. ok (find j (elements x))) is_new ∙ ap ok (e.finds j) in
              elim (Bool-cases (equal key j)) [
                | inl hit ↦ rw hit (rw hit at found)
                | inr miss ↦ rw miss (
                    rw miss at found
                    ∙ ap (λ x. ok (find j (elements x))) (sym same)
                    ∙ sym (entry-reached j))
              ]
          | inr other ↦
              let s = e.loaded.same_views r.id in
              let is_new : w ≡ s.new =
                ok-injective (sym is_w ∙ edited-other r.id other ∙ s.is_after) in
              let is_old : s.old ≡ r.top.view = ok-injective (sym s.is_before ∙ r.is_view) in
              let same : elements w ≡ elements r.top.view =
                ap elements is_new ∙ s.same_elements ∙ ap elements is_old in
              let got =
                edited-leaf j w below is_search (subst IsAscending (sym same) r.ascending) in
              elim (Bool-cases (equal key j)) [
                | inl hit ↦
                    let is_key : key ≡ j = (equal_iff key j).0 hit in
                    let at : r.id ≡ (reached key).id = ap (λ k. (reached k).id) (sym is_key) in
                    absurd (ground arith)
                | inr miss ↦ rw miss (got ∙ ap (λ xs. ok (find j xs)) same ∙ sym (entry-reached j))
              ]
        ]
