-- ===== src/Cursor/Search/Seek.antt =====
-- `Seek` shows the first element from the key on, and a look-up of a key is a search of all elements.
use mathlib.Core.List.{append-nil}
use bolt_analysis.Prelude.{
  get_elem?-drop, drop-get_elem?, get_elem?_past, All, ℕ, zero, suc, ◌+◌, ◌≤◌, ◌<◌, ◌≡◌, refl, sym,
  ap, ◌∙◌, subst, arith, Bool-cases, true, false, inl, inr, List, [], ◌∷◌, length, leb,
  if◌then◌else◌, head?, tail, Option, none, some, get_elem?,
}
use bolt_analysis.Prelude.Results.{Result, ok, ◌>>=◌}
use bolt_analysis.Panics.{Panic}
use bolt_analysis.Bytes.{le_less_trans, compare_bytes_flip, Bytes, less, equal}
use bolt_analysis.Node.{Inode}
use bolt_analysis.Node.Keys.{search_key-place, IsAscending, place, find}
use bolt_analysis.Pages.{View, is_leaf, elements, count}
use bolt_analysis.Cursor.{at_index, Ref, Stack, visible}
use bolt_analysis.Cursor.Tree.{IsTree, IsPath, leaf_items, rest}
use bolt_analysis.Cursor.Forward.{
  key_value-some, pages_after, leaf_top, leaf_past, next_loop-IsNext,
}
use bolt_analysis.Cursor.Enumeration.{Shows, items_of, leaves_of}
use bolt_analysis.Cursor.Search.{seek, seek_key, move_on, at_key}
use bolt_analysis.Cursor.Search.Order.{drop-place, from_key}
use bolt_analysis.Cursor.Search.Sought.{search-leaf, IsSearchable, search-IsSought}

-- An element if it has the key.
abbrev pub with_key : Bytes → Option Inode → Option Inode
with_key key none = none
with_key key (some e) = if equal e.key key then some e else none

find-above :
    (key : Bytes) (x : Inode) (xs : List Inode)
    → less x.key key ≡ false
    → equal x.key key ≡ false
    → All (λ y. less x.key y.key ≡ true) xs
    → find key xs ≡ none
unfolding find
find-above key x [] le ne s = refl
find-above key x (y ∷ ys) le ne s =
    let over : less key y.key ≡ true = le_less_trans key x.key y.key le s.0 in
    let other : equal y.key key ≡ false = ground (arith, compare_bytes_flip key y.key) in
    rw other (find-above key x ys le ne s.1)

-- What the element at the place of a key is.
pub find-place :
    (key : Bytes) (xs : List Inode)
    → IsAscending xs
    → find key xs ≡ with_key key (get_elem? xs (place key xs))
unfolding find
find-place key [] s = refl
find-place key (x ∷ xs) s = elim (Bool-cases (less x.key key)) [
  | inl below ↦
      let other : equal x.key key ≡ false = ground (arith, compare_bytes_flip key x.key) in
      rw (below, other) (find-place key xs s.1)
  | inr above ↦ elim (Bool-cases (equal x.key key)) [
    | inl same ↦ rw (above, same)
    | inr other ↦ rw (above, other) (find-above key x xs above other s.0)
  ]
]

module _ (fetch : ℕ → Result Panic View) where
  past-Shows :
      (rounds fuel height : ℕ) (top : Ref) (below : Stack)
      → IsPath fetch height (top ∷ below)
      → is_leaf top.view ≡ true
      → length (pages_after fetch height (top ∷ below)) < rounds
      → height + length (top ∷ below) ≤ fuel
      → count top.view ≤ top.index
      → Shows fetch rounds fuel (rest fetch leaf_items height (top ∷ below)) (
          at_key fetch (top ∷ below) >>= λ f.
          move_on fetch rounds fuel f >>= λ (s, i). ok (s, visible i))
  unfolding at_key move_on
  past-Shows rounds fuel height top below p l m d le =
      let past : leb (count top.view) top.index ≡ true = ground arith in
      let n = next_loop-IsNext fetch rounds fuel height (top ∷ below) m d p in
      let same = leaf_past fetch height top below l le in
      record {
        height = n.height;
        stack = n.stack;
        is_found =
            rw (past, past, n.is_found)
              (ap (λ i. ok (n.stack, visible i)) (n.is_first ∙ ap head? same));
        path = n.path;
        others = n.others ∙ ap tail same;
        deep_enough = omega (arith, n.same_depth);
        rounds_enough = omega (arith, n.fewer);
      }

  here-Shows :
      (rounds fuel height : ℕ) (top : Ref) (below : Stack)
      → IsPath fetch height (top ∷ below)
      → is_leaf top.view ≡ true
      → length (pages_after fetch height (top ∷ below)) < rounds
      → height + length (top ∷ below) ≤ fuel
      → top.index < count top.view
      → Shows fetch rounds fuel (rest fetch leaf_items height (top ∷ below)) (
          at_key fetch (top ∷ below) >>= λ f.
          move_on fetch rounds fuel f >>= λ (s, i). ok (s, visible i))
  unfolding at_key move_on
  here-Shows rounds fuel height top below p l m d inside =
      let within : leb (count top.view) top.index ≡ false = ground arith in
      let (x, value, whole) = leaf_top fetch height top below l inside in
      record {
        height = height;
        stack = top ∷ below;
        is_found =
            rw (within, within, value) (ap (λ i. ok (top ∷ below, visible i)) (ap head? whole));
        path = p;
        others = ap tail whole;
        deep_enough = d;
        rounds_enough = m;
      }

  -- In a tree with ascending keys whose children lie between the keys of their branch, and with
  -- rounds for its leaves and its height: `Seek` shows the first element whose key is not below the
  -- key, with the elements that follow it behind the cursor; no element if all keys are below.
  pub seek-Shows :
      (rounds fuel h root : ℕ) (key : Bytes) (v : View)
      → fetch root ≡ ok v
      → IsTree fetch h v
      → IsSearchable fetch h v
      → length (leaves_of fetch h v) ≤ rounds
      → h < fuel
      → Shows fetch rounds fuel
          (from_key key (items_of fetch h v))
          (seek fetch true rounds fuel root key)
  unfolding seek seek_key
  seek-Shows rounds fuel h root key v found t o m d =
      let s = search-IsSought fetch h fuel key root [] v d found t o tt in
      let pages : length (pages_after fetch s.height (s.top ∷ s.below)) < rounds =
        omega (arith, s.pages) in
      let deep : s.height + length (s.top ∷ s.below) ≤ fuel = omega (arith, s.same_depth) in
      rw s.is_found (
        subst
          (λ all. Shows fetch rounds fuel all (
            at_key fetch (s.top ∷ s.below) >>= λ f.
            move_on fetch rounds fuel f >>= λ (s, i). ok (s, visible i)))
          (s.items ∙ append-nil (from_key key (items_of fetch h v)))
          (elim (Bool-cases (leb (count s.top.view) s.top.index)) [
            | inl past ↦
                past-Shows rounds fuel s.height s.top s.below s.path s.at_leaf pages deep
                  (ground arith)
            | inr inside ↦
                here-Shows rounds fuel s.height s.top s.below s.path s.at_leaf pages deep
                  (ground arith)
          ]))

  pub at_key-place :
      (key : Bytes) (top : Ref) (below : Stack)
      → top.index ≡ place key (elements top.view)
      → at_key fetch (top ∷ below)
        ≡ ok (top ∷ below, get_elem? (elements top.view) (place key (elements top.view)))
  unfolding at_key count
  at_key-place key top below at = elim (Bool-cases (leb (count top.view) top.index)) [
    | inl past ↦
        let beyond =
          get_elem?_past (elements top.view) (place key (elements top.view)) (ground arith) in
        rw (past, beyond)
    | inr inside ↦
        let (x, here, _) = drop-get_elem? top.index (elements top.view) (ground arith) in
        let value = key_value-some top x (ground arith) here in
        rw (inside, value)
          (ap (λ o. ok (top ∷ below, o)) (sym here ∙ ap (get_elem? (elements top.view)) at))
  ]

  -- With a round for each level: the cursor's search for a key ends, and the element it is at, when
  -- it has that key, is the element of the whole tree with the key.
  pub seek_key-find :
      (h fuel root : ℕ) (key : Bytes) (v : View)
      → fetch root ≡ ok v
      → IsTree fetch h v
      → IsSearchable fetch h v
      → h < fuel
      → (refs : Stack) × (item : Option Inode) × (seek_key fetch true fuel root key
          ≡ ok (refs, item))
        × (find key (items_of fetch h v) ≡ with_key key item)
  unfolding seek_key
  seek_key-find h fuel root key v found t o d =
      let s = search-IsSought fetch h fuel key root [] v d found t o tt in
      let found_here = sym s.in_leaf ∙ find-place key (elements s.top.view) s.ascending in
      (
        s.top ∷ s.below,
        get_elem? (elements s.top.view) (place key (elements s.top.view)),
        rw s.is_found (at_key-place key s.top s.below s.at_place),
        found_here,
      )

  -- In a tree of one leaf, the search is at the first element from the key on.
  pub seek_key-leaf :
      (fuel root : ℕ) (key : Bytes) (v : View)
      → fetch root ≡ ok v
      → is_leaf v ≡ true
      → IsSearchable fetch 0 v
      → 0 < fuel
      → seek_key fetch true fuel root key
        ≡ ok (at_index v (place key (elements v)) ∷ [], head? (from_key key (elements v)))
  unfolding seek_key
  seek_key-leaf zero root key v found l o d = absurd (omega arith)
  seek_key-leaf (suc fuel) root key v found l (valid, s) d =
      let at = search_key-place key (elements v) s in
      rw
        (
          search-leaf fetch fuel key root [] v found valid l,
          at,
          at_key-place key (at_index v (place key (elements v))) [] refl,
        )
        (ap (λ o. ok (at_index v (place key (elements v)) ∷ [], o))
          (get_elem?-drop (elements v) (place key (elements v))
            ∙ ap head? (drop-place key (elements v))))
