-- ===== src/Cursor/Search/Sought.antt =====
-- `search` goes down to the leaf where the key is or would be, and `Seek` shows the first element
-- from the key on.
use mathlib.Core.List.{append_assoc}
use bolt_analysis.Prelude.{
  All-get_elem?, length-append, ℕ, zero, suc, ◌+◌, ◌≤◌, ◌<◌, ◌≡◌, refl, sym, ap, ◌∙◌, arith, true,
  false, inl, inr, List, [], ◌∷◌, ◌++◌, All, flat_map, drop, length, some, get_elem?,
}
use bolt_analysis.Prelude.Results.{Result, ok}
use bolt_analysis.Panics.{Panic}
use bolt_analysis.Bytes.{Bytes}
use bolt_analysis.Node.{Inode, search_key}
use bolt_analysis.Node.Keys.{IsAscending, place, find, search_key-place}
use bolt_analysis.Pages.{View, is_leaf, elements, count}
use bolt_analysis.Cursor.{Ref, at_index, Stack}
use bolt_analysis.Cursor.Tree.{
  IsTree, IsPath, child, leaf_items, leaf_mark, collect, rest, collect-leaf, element-ok,
}
use bolt_analysis.Cursor.Forward.{items_after, pages_after}
use bolt_analysis.Cursor.Enumeration.{items_of, leaves_of}
use bolt_analysis.Cursor.Search.{is_invalid, search}
use bolt_analysis.Cursor.Search.Choice.{child_pos, branch_index-child_pos}
use bolt_analysis.Cursor.Search.Order.{
  from_key, drop-place, AreSeparated, from_key-flat_map, find-flat_map,
}

length-flat_map-drop :
    {A : Type 0} {B : Type 0} (f : A → List B) (n : ℕ) (xs : List A)
    → length (flat_map f (drop n xs)) ≤ length (flat_map f xs)
length-flat_map-drop f zero xs = omega arith
length-flat_map-drop f (suc n) [] = omega arith
length-flat_map-drop f (suc n) (x ∷ xs) =
    omega (arith, length-flat_map-drop f n xs, length-append (f x) (flat_map f xs))

pub chosen :
    (items : Inode → List Inode) (key : Bytes) (es : List Inode)
    → 0 < length es
    → IsAscending es
    → AreSeparated items es
    → (c : Inode) × (get_elem? es (child_pos key es) ≡ some c)
      × (drop (child_pos key es) es ≡ c ∷ drop (suc (child_pos key es)) es)
      × (from_key key (flat_map items es)
          ≡ from_key key (items c) ++ flat_map items (drop (suc (child_pos key es)) es))
      × (find key (flat_map items es) ≡ find key (items c))
chosen items key [] pos s p = absurd (omega arith)
chosen items key (e ∷ es) pos s p =
    let (c, at, split, whole) = from_key-flat_map items key e es s p in
    (c, at, split, whole, find-flat_map items key e es s p c at)

module _ (fetch : ℕ → Result Panic View) where
  -- Pages of valid kinds, with ascending keys, and children between the keys of their branch.
  abbrev pub IsSearchable : ℕ → View → Type 0
  IsSearchable zero v = (is_invalid v ≡ false) × IsAscending (elements v)
  IsSearchable (suc h) v =
      (is_invalid v ≡ false)
      × IsAscending (elements v)
      × AreSeparated (child fetch (λ w. collect fetch leaf_items h w 0)) (elements v)
      × All (λ e. (w : View) → fetch e.pgid ≡ ok w → IsSearchable h w) (elements v)

  -- Where `search` ends.
  pub record IsSought (key : Bytes) (h : ℕ) (v : View) (refs : Stack) (found : Result Panic Stack)
      : Type 0 where
    pub height : ℕ
    pub top : Ref
    pub below : Stack
    pub is_found : found ≡ ok (top ∷ below)
    pub path : IsPath fetch height (top ∷ below)
    pub at_leaf : is_leaf top.view ≡ true
    pub at_place : top.index ≡ place key (elements top.view)
    pub ascending : IsAscending (elements top.view)
    pub items :
        rest fetch leaf_items height (top ∷ below)
        ≡ from_key key (items_of fetch h v) ++ items_after fetch (suc h) refs
    pub in_leaf : find key (elements top.view) ≡ find key (items_of fetch h v)
    pub same_depth : height + length (top ∷ below) ≡ h + suc (length refs)
    pub pages :
        length (pages_after fetch height (top ∷ below))
        < length (leaves_of fetch h v) + length (pages_after fetch (suc h) refs)

  -- The search stops at a leaf.
  leaf-IsSought :
      (key : Bytes) (h : ℕ) (v : View) (refs : Stack)
      → IsTree fetch h v
      → IsPath fetch (suc h) refs
      → IsAscending (elements v)
      → is_leaf v ≡ true
      → IsSought key h v refs (ok (at_index v (search_key (elements v) key) ∷ refs))
  leaf-IsSought key h v refs t p s l =
      let i = search_key (elements v) key in
      let at = search_key-place key (elements v) s in
      record {
        height = h;
        top = at_index v i;
        below = refs;
        is_found = refl;
        path = (t, p);
        at_leaf = l;
        at_place = at;
        ascending = s;
        items =
            ap (λ m. m ++ items_after fetch (suc h) refs)
              (collect-leaf fetch leaf_items h v i l
                ∙ ap (λ n. drop n (elements v)) at
                ∙ drop-place key (elements v)
                ∙ ap (from_key key) (sym (collect-leaf fetch leaf_items h v 0 l)));
        in_leaf = ap (find key) (sym (collect-leaf fetch leaf_items h v 0 l));
        same_depth = refl;
        pages =
            rw (collect-leaf fetch leaf_mark h v 0 l, collect-leaf fetch leaf_mark h v (i + 1) l)
              (ground arith);
      }

  down-items :
      (key : Bytes) (h : ℕ) (v : View) (refs : Stack) (w : View) (j : ℕ)
      → is_leaf v ≡ false
      → from_key key (flat_map (child fetch (λ w. collect fetch leaf_items h w 0)) (elements v))
        ≡ from_key key (collect fetch leaf_items h w 0)
          ++ flat_map
              (child fetch (λ w. collect fetch leaf_items h w 0))
              (drop (suc j) (elements v))
      → from_key key (items_of fetch h w) ++ items_after fetch (suc h) (at_index v j ∷ refs)
        ≡ from_key key (items_of fetch (suc h) v) ++ items_after fetch (suc (suc h)) refs
  unfolding collect
  down-items key h v refs w j branch whole =
      let one : j + 1 ≡ suc j = omega arith in
      rw (branch, one)
        (sym (
            append_assoc (from_key key (collect fetch leaf_items h w 0)) _
              (items_after fetch (suc (suc h)) refs))
          ∙ ap (λ m. m ++ items_after fetch (suc (suc h)) refs) (sym whole))

  down-pages :
      (h : ℕ) (v : View) (refs : Stack) (e : Inode) (w : View) (j : ℕ)
      → is_leaf v ≡ false
      → fetch e.pgid ≡ ok w
      → drop j (elements v) ≡ e ∷ drop (suc j) (elements v)
      → length (leaves_of fetch h w) + length (pages_after fetch (suc h) (at_index v j ∷ refs))
        ≤ length (leaves_of fetch (suc h) v) + length (pages_after fetch (suc (suc h)) refs)
  unfolding collect
  down-pages h v refs e w j branch at split =
      let one : j + 1 ≡ suc j = omega arith in
      let part =
        length-flat_map-drop (child fetch (λ w. collect fetch leaf_mark h w 0)) j (elements v) in
      rw (branch, one)
        (omega (
          arith,
          rw (split, at) at part,
          length-append (leaves_of fetch h w) (
              flat_map (child fetch (λ w. collect fetch leaf_mark h w 0))
                (drop (suc j) (elements v))),
          length-append
              (flat_map (child fetch (λ w. collect fetch leaf_mark h w 0))
                (drop (suc j) (elements v)))
              (pages_after fetch (suc (suc h)) refs),
        ))

  -- The search goes down to a child.
  down-IsSought :
      (key : Bytes) (h : ℕ) (v : View) (refs : Stack) (e : Inode) (w : View)
      (found : Result Panic Stack)
      → is_leaf v ≡ false
      → fetch e.pgid ≡ ok w
      → (j : ℕ) → drop j (elements v) ≡ e ∷ drop (suc j) (elements v)
      → from_key key (flat_map (child fetch (λ w. collect fetch leaf_items h w 0)) (elements v))
        ≡ from_key key (collect fetch leaf_items h w 0)
          ++ flat_map
              (child fetch (λ w. collect fetch leaf_items h w 0))
              (drop (suc j) (elements v))
      → find key (flat_map (child fetch (λ w. collect fetch leaf_items h w 0)) (elements v))
        ≡ find key (collect fetch leaf_items h w 0)
      → IsSought key h w (at_index v j ∷ refs) found
      → IsSought key (suc h) v refs found
  unfolding collect
  down-IsSought key h v refs e w found branch at j split whole same_find s = record {
    height = s.height;
    top = s.top;
    below = s.below;
    is_found = s.is_found;
    path = s.path;
    at_leaf = s.at_leaf;
    at_place = s.at_place;
    ascending = s.ascending;
    items = s.items ∙ down-items key h v refs w j branch whole;
    in_leaf = s.in_leaf ∙ rw branch (sym same_find);
    same_depth = omega (arith, s.same_depth);
    pages = omega (arith, s.pages, down-pages h v refs e w j branch at split);
  }

  pub search-down :
      (fuel : ℕ) (key : Bytes) (pgid : ℕ) (refs : Stack) (v : View) (e : Inode)
      → fetch pgid ≡ ok v
      → is_invalid v ≡ false
      → is_leaf v ≡ false
      → IsAscending (elements v)
      → get_elem? (elements v) (child_pos key (elements v)) ≡ some e
      → search fetch (suc fuel) key pgid refs
        ≡ search fetch fuel key e.pgid (at_index v (child_pos key (elements v)) ∷ refs)
  unfolding search
  search-down fuel key pgid refs v e found valid branch s at = rw (
    found,
    valid,
    branch,
    branch_index-child_pos key (elements v) s,
    element-ok (at_index v (child_pos key (elements v))) e at,
  )

  pub search-leaf :
      (fuel : ℕ) (key : Bytes) (pgid : ℕ) (refs : Stack) (v : View)
      → fetch pgid ≡ ok v
      → is_invalid v ≡ false
      → is_leaf v ≡ true
      → search fetch (suc fuel) key pgid refs ≡ ok (at_index v (search_key (elements v) key) ∷ refs)
  unfolding search
  search-leaf fuel key pgid refs v found valid l = rw (found, valid, l)

  -- With a round for each level, the search ends at the leaf and the place of the key.
  pub search-IsSought :
      (h fuel : ℕ) (key : Bytes) (pgid : ℕ) (refs : Stack) (v : View)
      → h < fuel
      → fetch pgid ≡ ok v
      → IsTree fetch h v
      → IsSearchable h v
      → IsPath fetch (suc h) refs
      → IsSought key h v refs (search fetch fuel key pgid refs)
  unfolding count
  search-IsSought h zero key pgid refs v lt found t s p = absurd (omega arith)
  search-IsSought zero (suc fuel) key pgid refs v lt found t (valid, s) p =
      rw (search-leaf fuel key pgid refs v found valid t) (leaf-IsSought key zero v refs t p s t)
  search-IsSought (suc h) (suc fuel) key pgid refs v lt found (inl l) (valid, s, sep, kids) p =
      rw (search-leaf fuel key pgid refs v found valid l)
        (leaf-IsSought key (suc h) v refs (inl l) p s l)
  search-IsSought (suc h) (suc fuel) key pgid refs v lt found (inr (branch, pos, trees))
        (valid, s, sep, kids) p =
      let (c, at, split, whole, same_find) = chosen _ key (elements v) pos s sep in
      let (w, there, t) = All-get_elem? _ (elements v) _ c trees at in
      let below = All-get_elem? _ (elements v) _ c kids at in
      let j = child_pos key (elements v) in
      rw (search-down fuel key pgid refs v c found valid branch s at) (
        down-IsSought key h v refs c w _ branch there j split (rw there at whole)
          (rw there at same_find)
          (search-IsSought h fuel key c.pgid (at_index v j ∷ refs) w (omega arith) there t
            (below w there) (inr (branch, pos, trees), p)))
