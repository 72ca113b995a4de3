-- ===== src/Cursor/Enumeration.antt =====
-- `First` and then `Next` visit every element below the root, once, in order.
use bolt_analysis.Prelude.{
  subst, ℕ, ◌+◌, ◌≤◌, ◌<◌, ◌≡◌, ap, ◌∙◌, inl, inr, arith, Bool-cases, true, false, List, [], ◌∷◌,
  Option, length, head?, tail, ◌==◌,
}
use mathlib.Core.List.{append-nil}
use bolt_analysis.Prelude.Results.{Result, ok, ◌>>=◌}
use bolt_analysis.Panics.{Panic}
use bolt_analysis.Node.{Inode}
use bolt_analysis.Pages.{View, is_leaf, count}
use bolt_analysis.Cursor.{
  Bytes, Ref, at_index, Stack, shown, first, first_found, next, visible, exported,
}
use bolt_analysis.Cursor.Tree.{
  IsTree, IsPath, first_loop-IsLanding, leaf_items, leaf_mark, collect, rest, usable, top_index,
}
use bolt_analysis.Cursor.Forward.{
  leaf_past, leaf_top, length-marked, items_after, pages_after, next_loop-IsNext, key_value-none,
}

module _ (fetch : ℕ → Result Panic View) where
  -- All elements of the leaves below a page of height `h`, in order, and the leaves.
  abbrev pub items_of : ℕ → View → List Inode
  items_of h v = collect fetch leaf_items h v 0

  abbrev pub leaves_of : ℕ → View → List View
  leaves_of h v = collect fetch leaf_mark h v 0

  -- The cursor shows the first of the elements `all`, and the others are behind it.
  pub record Shows (rounds fuel : ℕ) (all : List Inode)
      (found : Result Panic (Stack × Option (Bytes × Option Bytes))) : Type 0 where
    pub height : ℕ
    pub stack : Stack
    pub is_found : found ≡ ok (stack, visible (head? all))
    pub path : IsPath fetch height stack
    pub others : items_after fetch height stack ≡ tail all
    pub deep_enough : height + length stack ≤ fuel
    pub rounds_enough : length (pages_after fetch height stack) < rounds

  -- On a stack that is a path in a tree of pages, with rounds for the pages behind the cursor and for the
  -- height, `Next` shows the next element, with the others behind it; behind the last one it shows none,
  -- and goes on to do so.
  pub next-Shows :
      (rounds fuel h : ℕ) (refs : Stack)
      → length (pages_after fetch h refs) < rounds
      → h + length refs ≤ fuel
      → IsPath fetch h refs
      → Shows rounds fuel (items_after fetch h refs) (next fetch true rounds fuel refs)
  unfolding next
  next-Shows rounds fuel h refs m d p =
      let n = next_loop-IsNext fetch rounds fuel h refs m d p in
      record {
        height = n.height;
        stack = n.stack;
        is_found = rw n.is_found (ap (λ i. ok (n.stack, visible i)) n.is_first);
        path = n.path;
        others = n.others;
        deep_enough = omega (arith, n.same_depth);
        rounds_enough = omega (arith, n.fewer);
      }

  -- `First` on an empty leaf goes on to the first leaf that has an element.
  empty-Shows :
      (rounds fuel h : ℕ) (top : Ref) (below : Stack)
      → IsPath fetch h (top ∷ below)
      → is_leaf top.view ≡ true
      → length (pages_after fetch h (top ∷ below)) < rounds
      → h + length (top ∷ below) ≤ fuel
      → count top.view ≡ 0
      → Shows rounds fuel
          (rest fetch leaf_items h (top ∷ below))
          (first_found fetch rounds fuel (top ∷ below) >>= exported)
  unfolding first_found
  empty-Shows rounds fuel h top below p l m d empty =
      let zero_count : (count top.view == 0) ≡ true = ground arith in
      let n = next_loop-IsNext fetch rounds fuel h (top ∷ below) m d p in
      let same = leaf_past fetch h top below l (omega arith) in
      let shows : shown n.stack ≡ ok (n.stack, n.item) = elim n.kept [
        | inl (stays, shows_none) ↦
            rw (stays, shows_none) (ap (λ v. ok (top ∷ below, v)) (key_value-none top empty))
        | inr shows ↦ shows
      ] in
      record {
        height = n.height;
        stack = n.stack;
        is_found =
            rw (zero_count, n.is_found, shows)
              (ap (λ i. ok (n.stack, visible i)) (n.is_first ∙ ap head? same));
        path = n.path;
        others = n.others ∙ ap tail same;
        deep_enough = omega (arith, n.same_depth);
        rounds_enough = omega (arith, n.fewer);
      }

  full-Shows :
      (rounds fuel h : ℕ) (top : Ref) (below : Stack)
      → IsPath fetch h (top ∷ below)
      → is_leaf top.view ≡ true
      → length (pages_after fetch h (top ∷ below)) < rounds
      → h + length (top ∷ below) ≤ fuel
      → top.index < count top.view
      → Shows rounds fuel
          (rest fetch leaf_items h (top ∷ below))
          (first_found fetch rounds fuel (top ∷ below) >>= exported)
  unfolding first_found
  full-Shows rounds fuel h top below p l m d inside =
      let full : (count top.view == 0) ≡ false = ground arith in
      let (x, value, whole) = leaf_top fetch h top below l inside in
      record {
        height = h;
        stack = top ∷ below;
        is_found = rw (full, value) (ap (λ i. ok (top ∷ below, visible i)) (ap head? whole));
        path = p;
        others = ap tail whole;
        deep_enough = d;
        rounds_enough = m;
      }

  -- With a round for each leaf and the height of the tree, `First` shows the first element below
  -- the root, with the others behind it; no element if there is none.
  pub first-Shows :
      (rounds fuel h root : ℕ) (v : View)
      → fetch root ≡ ok v
      → IsTree fetch h v
      → length (leaves_of h v) ≤ rounds
      → h < fuel
      → Shows rounds fuel (items_of h v) (first fetch true rounds fuel root)
  unfolding first
  first-Shows rounds fuel h root v found t m d =
      let l = first_loop-IsLanding fetch h fuel (at_index v 0) [] d (t, tt) (usable fetch h v t) in
      let z : l.top.index ≡ 0 = elim l.moved [ inl same ↦ ap top_index same | inr z ↦ z ] in
      let items : rest fetch leaf_items l.height (l.top ∷ l.below) ≡ items_of h v =
        l.same_items ∙ append-nil _ in
      let pages : length (pages_after fetch l.height (l.top ∷ l.below)) < rounds = omega (
        arith,
        length-marked fetch l.height l.top l.below l.at_leaf z,
        ap length (l.same_pages ∙ append-nil _),
      ) in
      let deep : l.height + length (l.top ∷ l.below) ≤ fuel = omega (arith, l.same_depth) in
      rw (found, l.is_found)
        (subst
          (λ all.
            Shows rounds fuel all (first_found fetch rounds fuel (l.top ∷ l.below) >>= exported))
          items
          (elim (Bool-cases (count l.top.view == 0)) [
            | inl empty ↦
                empty-Shows rounds fuel l.height l.top l.below l.path l.at_leaf pages deep
                  (ground arith)
            | inr full ↦
                full-Shows rounds fuel l.height l.top l.below l.path l.at_leaf pages deep
                  (ground arith)
          ]))
