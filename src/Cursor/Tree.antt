-- ===== src/Cursor/Tree.antt =====
-- The pages below a page, in order, and what a stack has still to visit.
use mathlib.Core.List.{append_assoc}
use bolt_analysis.Prelude.{
  length, some, get_elem?, ◌==◌, ℕ, zero, suc, ◌+◌, ◌<◌, ◌≡◌, refl, sym, ap, ◌∙◌, ◌⊎◌, inl, inr,
  arith, Bool, true, false, List, [], ◌∷◌, ◌++◌, All, flat_map, drop, drop-get_elem?, All-get_elem?,
  if◌then◌else◌,
}
use bolt_analysis.Prelude.Results.{Result, ok, err}
use bolt_analysis.Panics.{Panic}
use bolt_analysis.Node.{Inode}
use bolt_analysis.Pages.{View, is_leaf, elements, count}
use bolt_analysis.Cursor.{Ref, at_index, Stack, element, first_loop}

abbrev pub of_page_found {ℓ} : {B : Type ℓ} → (View → List B) → Result Panic View → List B
of_page_found f (ok v) = f v
of_page_found f (err p) = []

-- The elements of a leaf from an index on, and the leaf itself while none of them is passed.
abbrev pub leaf_items : View → ℕ → List Inode
leaf_items v i = drop i (elements v)

abbrev pub leaf_mark : View → ℕ → List View
leaf_mark v i = if i == 0 then v ∷ [] else []

abbrev pub top_index : Stack → ℕ
top_index [] = 0
top_index (r ∷ refs) = r.index

pub element-ok :
    (r : Ref) (e : Inode) → get_elem? (elements r.view) r.index ≡ some e → element r ≡ ok e
unfolding element
element-ok r e at = rw (at, element)

pub not_both : (b : Bool) → b ≡ false → b ≡ true → ⊥
not_both b e l = cc

module _ (fetch : ℕ → Result Panic View) where
  -- What a function finds at the page of a branch element.
  abbrev pub child {ℓ} : {B : Type ℓ} → (View → List B) → Inode → List B
  child f e = of_page_found f (fetch e.pgid)

  -- A page whose branches have children down to leaves, at most `h` levels below it.
  abbrev pub IsTree : ℕ → View → Type 0
  IsTree zero v = is_leaf v ≡ true
  IsTree (suc h) v =
      (is_leaf v ≡ true)
      ⊎ ((is_leaf v ≡ false)
          × (0 < count v)
          × All (λ e. (w : View) × (fetch e.pgid ≡ ok w) × IsTree h w) (elements v))

  -- The entries of a stack, the top at height `h`.
  abbrev pub IsPath : ℕ → Stack → Type 0
  IsPath h [] = Unit
  IsPath h (r ∷ refs) = IsTree h r.view × IsPath (suc h) refs

  module _ {ℓ} {B : Type ℓ} (leaf : View → ℕ → List B) where
    -- What the leaves below a page hold, in order, from the element at an index on.
    unfoldable pub collect : ℕ → View → ℕ → List B
    collect zero v i = leaf v i
    collect (suc h) v i =
        if is_leaf v then leaf v i else flat_map (child (λ w. collect h w 0)) (drop i (elements v))

    -- What a stack has behind the element it is at.
    abbrev pub after : ℕ → Stack → List B
    after h [] = []
    after h (r ∷ refs) = collect h r.view (r.index + 1) ++ after (suc h) refs

    -- The same from the element on.
    abbrev pub rest : ℕ → Stack → List B
    rest h [] = []
    rest h (r ∷ refs) = collect h r.view r.index ++ after (suc h) refs

    pub collect-leaf : (h : ℕ) (v : View) (i : ℕ) → is_leaf v ≡ true → collect h v i ≡ leaf v i
    unfolding collect
    collect-leaf zero v i e = refl
    collect-leaf (suc h) v i e = rw e

    -- A step down to the child at the index.
    pub rest_down :
        (h : ℕ) (r : Ref) (refs : Stack) (e : Inode) (w : View)
        → is_leaf r.view ≡ false
        → drop r.index (elements r.view) ≡ e ∷ drop (suc r.index) (elements r.view)
        → fetch e.pgid ≡ ok w
        → rest h (at_index w 0 ∷ r ∷ refs) ≡ rest (suc h) (r ∷ refs)
    unfolding collect
    rest_down h r refs e w branch split found =
        let one : r.index + 1 ≡ suc r.index = omega arith in
        rw (branch, split, found, one)
          (sym (
            append_assoc (collect h w 0)
              (flat_map (child (λ w. collect h w 0)) (drop (suc r.index) (elements r.view)))
              (after (suc (suc h)) refs)))

  pub usable : (h : ℕ) (v : View) → IsTree h v → (is_leaf v ≡ true) ⊎ (0 < count v)
  usable zero v t = inl t
  usable (suc h) v (inl l) = inl l
  usable (suc h) v (inr t) = inr t.1

  -- The leaf that `first` ends at: what the stack had from its element on is kept.
  pub record IsLanding (before : Stack) (h : ℕ) (found : Result Panic Stack) : Type 0 where
    pub height : ℕ
    pub top : Ref
    pub below : Stack
    pub is_found : found ≡ ok (top ∷ below)
    pub path : IsPath height (top ∷ below)
    pub at_leaf : is_leaf top.view ≡ true
    pub same_items : rest leaf_items height (top ∷ below) ≡ rest leaf_items h before
    pub same_pages : rest leaf_mark height (top ∷ below) ≡ rest leaf_mark h before
    pub moved : ((top ∷ below) ≡ before) ⊎ (top.index ≡ 0)
    pub same_depth : height + length (top ∷ below) ≡ h + length before

  first_loop-down :
      (fuel : ℕ) (r : Ref) (refs : Stack) (e : Inode) (w : View)
      → is_leaf r.view ≡ false
      → get_elem? (elements r.view) r.index ≡ some e
      → fetch e.pgid ≡ ok w
      → first_loop fetch (suc fuel) (r ∷ refs) ≡ first_loop fetch fuel (at_index w 0 ∷ r ∷ refs)
  unfolding first_loop
  first_loop-down fuel r refs e w branch at found = rw (branch, element-ok r e at, found)

  leaf-IsLanding :
      (h fuel : ℕ) (r : Ref) (refs : Stack)
      → IsPath h (r ∷ refs)
      → is_leaf r.view ≡ true
      → IsLanding (r ∷ refs) h (first_loop fetch (suc fuel) (r ∷ refs))
  unfolding first_loop
  leaf-IsLanding h fuel r refs p l = record {
    height = h;
    top = r;
    below = refs;
    is_found = rw l;
    path = p;
    at_leaf = l;
    same_items = refl;
    same_pages = refl;
    moved = inl refl;
    same_depth = refl;
  }

  down-IsLanding :
      (h fuel : ℕ) (r : Ref) (refs : Stack) (e : Inode) (w : View)
      → is_leaf r.view ≡ false
      → get_elem? (elements r.view) r.index ≡ some e
      → drop r.index (elements r.view) ≡ e ∷ drop (suc r.index) (elements r.view)
      → fetch e.pgid ≡ ok w
      → IsLanding (at_index w 0 ∷ r ∷ refs) h (first_loop fetch fuel (at_index w 0 ∷ r ∷ refs))
      → IsLanding (r ∷ refs) (suc h) (first_loop fetch (suc fuel) (r ∷ refs))
  down-IsLanding h fuel r refs e w branch at split found l = record {
    height = l.height;
    top = l.top;
    below = l.below;
    is_found = first_loop-down fuel r refs e w branch at found ∙ l.is_found;
    path = l.path;
    at_leaf = l.at_leaf;
    same_items = l.same_items ∙ rest_down leaf_items h r refs e w branch split found;
    same_pages = l.same_pages ∙ rest_down leaf_mark h r refs e w branch split found;
    moved = inr (elim l.moved [ inl same ↦ ap top_index same | inr z ↦ z ]);
    same_depth = omega (arith, l.same_depth);
  }

  pub first_loop-IsLanding :
      (h fuel : ℕ) (r : Ref) (refs : Stack)
      → h < fuel
      → IsPath h (r ∷ refs)
      → (is_leaf r.view ≡ true) ⊎ (r.index < count r.view)
      → IsLanding (r ∷ refs) h (first_loop fetch fuel (r ∷ refs))
  unfolding count
  first_loop-IsLanding h zero r refs lt p u = absurd (omega arith)
  first_loop-IsLanding zero (suc fuel) r refs lt p u = leaf-IsLanding zero fuel r refs p p.0
  first_loop-IsLanding (suc h) (suc fuel) r refs lt (inl l, p) u =
      leaf-IsLanding (suc h) fuel r refs (inl l, p) l
  first_loop-IsLanding (suc h) (suc fuel) r refs lt (inr (branch, pos, kids), p) (inl l) =
      absurd (not_both (is_leaf r.view) branch l)
  first_loop-IsLanding (suc h) (suc fuel) r refs lt (inr (branch, pos, kids), p) (inr inside) =
      let (e, at, split) = drop-get_elem? r.index (elements r.view) inside in
      let (w, found, t) = All-get_elem? _ (elements r.view) r.index e kids at in
      down-IsLanding h fuel r refs e w branch at split found (
        first_loop-IsLanding h fuel (at_index w 0) (r ∷ refs) (omega arith)
          (t, (inr (branch, pos, kids), p)) (usable h w t))
