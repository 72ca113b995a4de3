-- ===== src/Cursor/Forward.antt =====
-- `next` visits the elements of the leaves in order.
use bolt_analysis.Prelude.{
  subst, ℕ, zero, suc, ◌+◌, ◌≤◌, ◌<◌, ◌≡◌, refl, sym, ap, ◌∙◌, ◌⊎◌, inl, inr, arith, Bool-cases,
  true, false, [], ◌∷◌, Option, none, some, length, head?, tail, ◌==◌,
}
use bolt_analysis.Prelude.Results.{Result, ok, ◌>>=◌}
use bolt_analysis.Panics.{Panic}
use bolt_analysis.Node.{Inode}
use bolt_analysis.Pages.{View, count}
use bolt_analysis.Cursor.{Ref, Stack, onward, landed, shown, first_loop, next_loop}
use bolt_analysis.Cursor.Tree.{IsPath, IsLanding, first_loop-IsLanding, leaf_items, leaf_mark, rest}
pub use bolt_analysis.Cursor.Position.{
  key_value-some, key_value-none, items_after, pages_after, pages_after-le, leaf_top, leaf_past,
  length-marked,
}
use bolt_analysis.Cursor.Position.{IsAdvanced, at_end, further, advance-IsAdvanced}

module _ (fetch : ℕ → Result Panic View) where
  -- What `next` makes of a stack.
  pub record IsNext (h : ℕ) (refs : Stack) (found : Result Panic (Stack × Option Inode))
      : Type 0 where
    pub height : ℕ
    pub stack : Stack
    pub item : Option Inode
    pub is_found : found ≡ ok (stack, item)
    pub path : IsPath fetch height stack
    pub is_first : item ≡ head? (items_after fetch h refs)
    pub others : items_after fetch height stack ≡ tail (items_after fetch h refs)
    pub same_depth : height + length stack ≡ h + length refs
    pub fewer : length (pages_after fetch height stack) ≤ length (pages_after fetch h refs)
    pub kept : ((stack ≡ refs) × (item ≡ none)) ⊎ (shown stack ≡ ok (stack, item))

  -- The last round: the leaf has the element that the cursor shows.
  landed-IsNext :
      (h : ℕ) (refs before : Stack) (h' : ℕ) (again : Stack → Result Panic (Stack × Option Inode))
      (found : Result Panic Stack)
      → (l : IsLanding fetch before h' found)
      → rest fetch leaf_items h' before ≡ items_after fetch h refs
      → rest fetch leaf_mark h' before ≡ pages_after fetch h refs
      → h' + length before ≡ h + length refs
      → l.top.index < count l.top.view
      → IsNext h refs (found >>= landed again)
  unfolding landed
  landed-IsNext h refs before h' again found l items pages d inside =
      let full : (count l.top.view == 0) ≡ false = ground arith in
      let (x, value, whole) = leaf_top fetch l.height l.top l.below l.at_leaf inside in
      let all = whole ∙ l.same_items ∙ items in
      record {
        height = l.height;
        stack = l.top ∷ l.below;
        item = some x;
        is_found = rw (l.is_found, full, value);
        path = l.path;
        is_first = ap head? all;
        others = ap tail all;
        same_depth = l.same_depth ∙ d;
        fewer = omega (
          arith,
          pages_after-le fetch l.height l.top l.below l.at_leaf,
          ap length (l.same_pages ∙ pages),
        );
        kept = inr (rw value);
      }

  -- An empty page: the next round.
  empty-IsNext :
      (h : ℕ) (refs before : Stack) (h' : ℕ) (again : Stack → Result Panic (Stack × Option Inode))
      (found : Result Panic Stack)
      → (l : IsLanding fetch before h' found)
      → rest fetch leaf_items h' before ≡ items_after fetch h refs
      → rest fetch leaf_mark h' before ≡ pages_after fetch h refs
      → h' + length before ≡ h + length refs
      → count l.top.view ≡ 0
      → IsNext l.height (l.top ∷ l.below) (again (l.top ∷ l.below))
      → IsNext h refs (found >>= landed again)
  unfolding landed
  empty-IsNext h refs before h' again found l items pages d empty n =
      let same =
        leaf_past fetch l.height l.top l.below l.at_leaf (omega arith) ∙ l.same_items ∙ items in
      let zero_count : (count l.top.view == 0) ≡ true = ground arith in
      record {
        height = n.height;
        stack = n.stack;
        item = n.item;
        is_found = rw (l.is_found, zero_count) n.is_found;
        path = n.path;
        is_first = n.is_first ∙ ap head? same;
        others = n.others ∙ ap tail same;
        same_depth = n.same_depth ∙ l.same_depth ∙ d;
        fewer = omega (
          arith,
          n.fewer,
          pages_after-le fetch l.height l.top l.below l.at_leaf,
          ap length (l.same_pages ∙ pages),
        );
        kept = inr (elim n.kept [
          | inl (stays, shows_none) ↦
              rw (stays, shows_none)
                (ap (λ v. ok (l.top ∷ l.below, v)) (key_value-none l.top empty))
          | inr shows ↦ shows
        ]);
      }

  abbrev InTop : Stack → Type 0
  InTop [] = ⊥
  InTop (r ∷ refs) = r.index < count r.view

  further-IsNext :
      (rounds fuel h : ℕ) (refs : Stack) (again : Stack → Result Panic (Stack × Option Inode))
      → ((k : ℕ) (s : Stack)
          → length (pages_after fetch k s) < rounds
          → k + length s ≤ fuel
          → IsPath fetch k s
          → IsNext k s (again s))
      → length (pages_after fetch h refs) < suc rounds
      → h + length refs ≤ fuel
      → (h' : ℕ) (r : Ref) (below : Stack) → IsPath fetch h' (r ∷ below)
      → r.index < count r.view
      → rest fetch leaf_items h' (r ∷ below) ≡ items_after fetch h refs
      → rest fetch leaf_mark h' (r ∷ below) ≡ pages_after fetch h refs
      → h' + length (r ∷ below) ≡ h + length refs
      → IsNext h refs (first_loop fetch fuel (r ∷ below) >>= landed again)
  further-IsNext rounds fuel h refs again ih m d h' r below p i items pages same =
      let l = first_loop-IsLanding fetch h' fuel r below (omega arith) p (inr i) in
      let at_top : (InTop (l.top ∷ l.below)) ⊎ (l.top.index ≡ 0) = elim l.moved [
        | inl e ↦ inl (subst InTop (sym e) i)
        | inr z ↦ inr z
      ] in
      elim (Bool-cases (count l.top.view == 0)) [
        | inl empty ↦
            let none_here : count l.top.view ≡ 0 = ground arith in
            let z : l.top.index ≡ 0 = elim at_top [
              | inl inside ↦ absurd (omega arith)
              | inr z ↦ z
            ] in
            let fewer : length (pages_after fetch l.height (l.top ∷ l.below)) < rounds = omega (
              arith,
              length-marked fetch l.height l.top l.below l.at_leaf z,
              ap length (l.same_pages ∙ pages),
            ) in
            empty-IsNext h refs (r ∷ below) h' again _ l items pages same none_here
              (ih l.height (l.top ∷ l.below) fewer (omega (arith, l.same_depth)) l.path)
        | inr full ↦
            let inside : l.top.index < count l.top.view = elim at_top [
              | inl inside ↦ inside
              | inr z ↦ ground arith
            ] in
            landed-IsNext h refs (r ∷ below) h' again _ l items pages same inside
      ]

  step-IsNext :
      (rounds fuel h : ℕ) (refs : Stack) (again : Stack → Result Panic (Stack × Option Inode))
      {o : Option Stack}
      → ((k : ℕ) (s : Stack)
          → length (pages_after fetch k s) < rounds
          → k + length s ≤ fuel
          → IsPath fetch k s
          → IsNext k s (again s))
      → length (pages_after fetch h refs) < suc rounds
      → h + length refs ≤ fuel
      → IsPath fetch h refs
      → IsAdvanced fetch h refs o
      → IsNext h refs (onward (λ s. first_loop fetch fuel s >>= landed again) refs o)
  unfolding onward
  step-IsNext rounds fuel h refs again ih m d p (at_end e) = record {
    height = h;
    stack = refs;
    item = none;
    is_found = refl;
    path = p;
    is_first = sym (ap head? e);
    others = e ∙ sym (ap tail e);
    same_depth = refl;
    fewer = omega arith;
    kept = inl (refl, refl);
  }
  step-IsNext rounds fuel h refs again ih m d p (further h' r below p' i items pages same) =
      further-IsNext rounds fuel h refs again ih m d h' r below p' i items pages same

  -- With a round for each page behind the cursor and one more, and the height of the stack, `next`
  -- ends, on a stack of pages below the same root: it returns the first of the elements behind the
  -- cursor, none if there is none, and has the others behind it then.
  pub next_loop-IsNext :
      (rounds fuel h : ℕ) (refs : Stack)
      → length (pages_after fetch h refs) < rounds
      → h + length refs ≤ fuel
      → IsPath fetch h refs
      → IsNext h refs (next_loop fetch rounds fuel refs)
  unfolding next_loop
  next_loop-IsNext zero fuel h refs m d p = absurd (omega arith)
  next_loop-IsNext (suc rounds) fuel h refs m d p =
      step-IsNext rounds fuel h refs (next_loop fetch rounds fuel)
        (λ k s m' d' p'. next_loop-IsNext rounds fuel k s m' d' p') m d p
        (advance-IsAdvanced fetch h refs p)
