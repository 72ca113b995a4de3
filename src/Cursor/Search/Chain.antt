-- ===== src/Cursor/Search/Chain.antt =====
-- The ids of the pages on the way of a search, and the same search over other pages.
use bolt_analysis.Prelude.{
  All-zip, Bool-cases, ℕ, zero, suc, ◌<◌, ◌≡◌, ◌⊎◌, refl, sym, ◌∙◌, subst, arith, true, false, inl,
  inr, List, [], ◌∷◌, All, All-get_elem?, length, some, get_elem?,
}
use bolt_analysis.Prelude.Results.{Result, ok}
use bolt_analysis.Panics.{Panic}
use bolt_analysis.Bytes.{less, Bytes}
use bolt_analysis.Node.{Inode, search_key}
use bolt_analysis.Node.Keys.{IsAscending}
use bolt_analysis.Pages.{View, is_leaf, elements, count}
use bolt_analysis.Cursor.{Ref, at_index, Stack}
use bolt_analysis.Cursor.Tree.{IsTree}
use bolt_analysis.Cursor.Search.{is_invalid, search}
use bolt_analysis.Cursor.Search.Choice.{child_pos}
use bolt_analysis.Cursor.Search.Sought.{IsSearchable, search-leaf, search-down}

-- Pages of the same kind, and of the same elements if they are branches.
pub record IsAlike (v : View) (found : Result Panic View) : Type 0 where
  pub other : View
  pub is_found : found ≡ ok other
  pub same_kind : is_leaf other ≡ is_leaf v
  pub same_validity : is_invalid v ≡ false → is_invalid other ≡ false
  pub same_branch : is_leaf v ≡ false → elements other ≡ elements v

-- The element that a branch is left by.
get_elem?-child_pos :
    (key : Bytes) (es : List Inode)
    → 0 < length es
    → (c : Inode) × (get_elem? es (child_pos key es) ≡ some c)
get_elem?-child_pos key [] pos = absurd (omega arith)
get_elem?-child_pos key (e ∷ []) pos = (e, refl)
get_elem?-child_pos key (e ∷ e' ∷ es) pos = elim (Bool-cases (less key e'.key)) [
  | inl here ↦ rw here (e, refl)
  | inr later ↦ rw later (get_elem?-child_pos key (e' ∷ es) (omega arith))
]

module _ (fetch : ℕ → Result Panic View) (Good : ℕ → Type 0) where
  -- The entries of a stack above a page, up to the root.
  abbrev pub IsUnder : ℕ → ℕ → Stack → Type 0
  IsUnder root id [] = id ≡ root
  IsUnder root id (r ∷ refs) =
      (parent : ℕ) × (e : Inode) × (fetch parent ≡ ok r.view)
      × Good parent
      × (is_leaf r.view ≡ false)
      × (get_elem? (elements r.view) r.index ≡ some e)
      × (e.pgid ≡ id)
      × IsUnder root parent refs

  -- All pages of a tree are good.
  abbrev pub IsGood : ℕ → ℕ → View → Type 0
  IsGood zero id v = Good id
  IsGood (suc h) id v =
      Good id
      × (is_leaf v ≡ false
          → All (λ e. (w : View) → fetch e.pgid ≡ ok w → IsGood h e.pgid w) (elements v))

  -- The leaf that a search reaches, and the same search over pages `g` that are alike.
  pub record IsReached (root fuel : ℕ) (key : Bytes) (pgid : ℕ) (refs : Stack) : Type 0 where
    pub id : ℕ
    pub top : Ref
    pub below : Stack
    pub is_found : search fetch fuel key pgid refs ≡ ok (top ∷ below)
    pub is_view : fetch id ≡ ok top.view
    pub good : Good id
    pub under : IsUnder root id below
    pub at_leaf : is_leaf top.view ≡ true
    pub at_key : top.index ≡ search_key (elements top.view) key
    pub ascending : IsAscending (elements top.view)
    pub again :
        (g : ℕ → Result Panic View)
        → ((i : ℕ) (v : View) → fetch i ≡ ok v → IsAlike v (g i))
        → (refs' : Stack)
        → (w : View) × (below' : Stack) × (g id ≡ ok w)
          × (search g fuel key pgid refs' ≡ ok (at_index w (search_key (elements w) key) ∷ below'))

  leaf-IsReached :
      (root fuel : ℕ) (key : Bytes) (pgid : ℕ) (refs : Stack) (v : View)
      → fetch pgid ≡ ok v
      → Good pgid
      → IsUnder root pgid refs
      → is_invalid v ≡ false
      → is_leaf v ≡ true
      → IsAscending (elements v)
      → IsReached root (suc fuel) key pgid refs
  leaf-IsReached root fuel key pgid refs v found good under valid l s = record {
    id = pgid;
    top = at_index v (search_key (elements v) key);
    below = refs;
    is_found = search-leaf fetch fuel key pgid refs v found valid l;
    is_view = found;
    good = good;
    under = under;
    at_leaf = l;
    at_key = refl;
    ascending = s;
    again = λ g alike refs'.
        let a = alike pgid v found in
        (
          a.other,
          refs',
          a.is_found,
          search-leaf g fuel key pgid refs' a.other a.is_found (a.same_validity valid)
              (a.same_kind ∙ l),
        );
  }

  down-IsReached :
      (root fuel : ℕ) (key : Bytes) (pgid : ℕ) (refs : Stack) (v : View) (e : Inode)
      → fetch pgid ≡ ok v
      → is_invalid v ≡ false
      → is_leaf v ≡ false
      → IsAscending (elements v)
      → get_elem? (elements v) (child_pos key (elements v)) ≡ some e
      → IsReached root fuel key e.pgid (at_index v (child_pos key (elements v)) ∷ refs)
      → IsReached root (suc fuel) key pgid refs
  down-IsReached root fuel key pgid refs v e found valid branch s at r = record {
    id = r.id;
    top = r.top;
    below = r.below;
    is_found = search-down fetch fuel key pgid refs v e found valid branch s at ∙ r.is_found;
    is_view = r.is_view;
    good = r.good;
    under = r.under;
    at_leaf = r.at_leaf;
    at_key = r.at_key;
    ascending = r.ascending;
    again = λ g alike refs'.
        let a = alike pgid v found in
        let same = a.same_branch branch in
        let at' = subst (λ xs. get_elem? xs (child_pos key xs) ≡ some e) (sym same) at in
        let (w, below', is_w, is_search) =
          r.again g alike (at_index a.other (child_pos key (elements a.other)) ∷ refs') in
        (
          w,
          below',
          is_w,
          search-down g fuel key pgid refs' a.other e a.is_found (a.same_validity valid)
                (a.same_kind ∙ branch) (subst IsAscending (sym same) s) at'
              ∙ is_search,
        );
  }

  -- A tree of good, valid pages with ascending keys.
  abbrev pub IsNavigable : ℕ → ℕ → View → Type 0
  IsNavigable zero id v =
      Good id × (is_invalid v ≡ false) × IsAscending (elements v) × (is_leaf v ≡ true)
  IsNavigable (suc h) id v =
      Good id
      × (is_invalid v ≡ false)
      × IsAscending (elements v)
      × ((is_leaf v ≡ true)
          ⊎ ((is_leaf v ≡ false)
              × (0 < count v)
              × All (λ e. (w : View) × (fetch e.pgid ≡ ok w) × IsNavigable h e.pgid w)
                  (elements v)))

  -- With a round for each level, the search in such a tree reaches a leaf.
  pub search-IsReached :
      (h root fuel : ℕ) (key : Bytes) (pgid : ℕ) (refs : Stack) (v : View)
      → h < fuel
      → fetch pgid ≡ ok v
      → IsNavigable h pgid v
      → IsUnder root pgid refs
      → IsReached root fuel key pgid refs
  unfolding count
  search-IsReached h root zero key pgid refs v lt found n u = absurd (omega arith)
  search-IsReached zero root (suc fuel) key pgid refs v lt found (good, valid, s, l) u =
      leaf-IsReached root fuel key pgid refs v found good u valid l s
  search-IsReached (suc h) root (suc fuel) key pgid refs v lt found (good, valid, s, inl l) u =
      leaf-IsReached root fuel key pgid refs v found good u valid l s
  search-IsReached (suc h) root (suc fuel) key pgid refs v lt found
        (good, valid, s, inr (branch, pos, kids)) u =
      let (c, at) = get_elem?-child_pos key (elements v) pos in
      let (w, there, n) = All-get_elem? _ (elements v) _ c kids at in
      down-IsReached root fuel key pgid refs v c found valid branch s at (
        search-IsReached h root fuel key c.pgid (at_index v (child_pos key (elements v)) ∷ refs) w
          (omega arith) there n (pgid, c, found, good, branch, at, refl, u))

  pub IsNavigable-of_IsTree :
      (h id : ℕ) (v : View)
      → IsTree fetch h v
      → IsSearchable fetch h v
      → IsGood h id v
      → IsNavigable h id v
  IsNavigable-of_IsTree zero id v t (valid, s) g = (g, valid, s, t)
  IsNavigable-of_IsTree (suc h) id v (inl l) (valid, s, sep, kids) g = (g.0, valid, s, inl l)
  IsNavigable-of_IsTree (suc h) id v (inr (branch, pos, trees)) (valid, s, sep, kids) g = (
    g.0,
    valid,
    s,
    inr (
      branch,
      pos,
      All-zip _ _ _ (elements v)
          (λ e t p. (t.0, t.1, IsNavigable-of_IsTree h e.pgid t.0 t.2 (p.0 t.0 t.1) (p.1 t.0 t.1)))
          trees
          (All-zip _ _
            (λ e.
              ((w : View) → fetch e.pgid ≡ ok w → IsSearchable fetch h w)
              × ((w : View) → fetch e.pgid ≡ ok w → IsGood h e.pgid w))
            (elements v) (λ e p q. (p, q)) kids (g.1 branch)),
    ),
  )
