-- ===== src/Cursor/Backward.antt =====
-- `Last` goes down to the last leaf.
use bolt_analysis.Prelude.{
  ℕ, zero, suc, ◌-◌, ◌<◌, ◌≡◌, refl, sym, ap, ◌∙◌, arith, true, false, inl, inr, List, [], ◌∷◌,
  ◌++◌, All-get_elem?, flat_map, drop-get_elem?, length, leb, ◌==◌, ◌||◌, if◌then◌else◌, Option,
  none, some, get_elem?,
}
use mathlib.Core.List.{append-nil}
use bolt_analysis.Prelude.Results.{Result, ok}
use bolt_analysis.Panics.{Panic}
use bolt_analysis.Node.{Inode}
use bolt_analysis.Pages.{View, is_leaf, elements, count}
use bolt_analysis.Cursor.{Ref, at_index, Stack, key_value, visible, last_loop, last}
use bolt_analysis.Cursor.Tree.{IsTree, child, collect, collect-leaf, leaf_mark, element-ok}
use bolt_analysis.Cursor.Enumeration.{leaves_of}

abbrev pub last? {ℓ} : {A : Type ℓ} → List A → Option A
last? [] = none
last? (x ∷ []) = some x
last? (x ∷ y ∷ ys) = last? (y ∷ ys)

module _ {A : Type 0} where
  last?-append : (xs ys : List A) (w : A) → last? ys ≡ some w → last? (xs ++ ys) ≡ some w
  last?-append [] ys w h = h
  last?-append (x ∷ []) [] w h = absurd (let e : none ≡ some w = h in cc)
  last?-append (x ∷ []) (y ∷ ys) w h = h
  last?-append (x ∷ x' ∷ xs) ys w h = last?-append (x' ∷ xs) ys w h

  get_elem?-last : (xs : List A) → get_elem? xs (length xs - 1) ≡ last? xs
  get_elem?-last [] = refl
  get_elem?-last (x ∷ []) = refl
  get_elem?-last (x ∷ y ∷ ys) =
      let e : length (x ∷ y ∷ ys) - 1 ≡ suc (length (y ∷ ys) - 1) = omega arith in
      ap (get_elem? (x ∷ y ∷ ys)) e ∙ get_elem?-last (y ∷ ys)

  -- What `keyValue` finds at the last index.
  value_at_last :
      (xs : List A) (i : ℕ)
      → i ≡ length xs - 1
      → (if length xs == 0 || leb (length xs) i then none else get_elem? xs i) ≡ last? xs
  value_at_last [] i e = ground arith
  value_at_last (x ∷ xs) i e =
      let some_left : (length (x ∷ xs) == 0) ≡ false = ground arith in
      let within : leb (length (x ∷ xs)) i ≡ false = ground arith in
      rw (some_left, within) (ap (get_elem? (x ∷ xs)) e ∙ get_elem?-last (x ∷ xs))

last?-flat_map :
    {A B : Type 0} (f : A → List B) (es : List A) (c : A) (w : B)
    → last? es ≡ some c
    → last? (f c) ≡ some w
    → last? (flat_map f es) ≡ some w
last?-flat_map f [] c w at h = absurd (let e : none ≡ some c = at in cc)
last?-flat_map f (x ∷ []) c w at h =
    let same : x ≡ c = cc in ap last? (append-nil (f x)) ∙ ap (λ e. last? (f e)) same ∙ h
last?-flat_map f (x ∷ y ∷ ys) c w at h =
    last?-append (f x) (flat_map f (y ∷ ys)) w (last?-flat_map f (y ∷ ys) c w at h)

module _ (fetch : ℕ → Result Panic View) where
  -- Where `last` ends.
  record IsLast (h : ℕ) (v : View) (found : Result Panic Stack) : Type 0 where
    top : Ref
    below : Stack
    is_found : found ≡ ok (top ∷ below)
    at_end : top.index ≡ count top.view - 1
    is_last : last? (leaves_of fetch h v) ≡ some top.view

  leaf-IsLast :
      (h fuel : ℕ) (v : View) (refs : Stack)
      → is_leaf v ≡ true
      → IsLast h v (last_loop fetch (suc fuel) (at_index v (count v - 1) ∷ refs))
  unfolding last_loop
  leaf-IsLast h fuel v refs l = record {
    top = at_index v (count v - 1);
    below = refs;
    is_found = rw l;
    at_end = refl;
    is_last = ap last? (collect-leaf fetch leaf_mark h v 0 l);
  }

  down-IsLast :
      (h fuel : ℕ) (v : View) (refs : Stack) (e : Inode) (w : View)
      → is_leaf v ≡ false
      → get_elem? (elements v) (count v - 1) ≡ some e
      → fetch e.pgid ≡ ok w
      → IsLast h w
          (last_loop fetch fuel (at_index w (count w - 1) ∷ at_index v (count v - 1) ∷ refs))
      → IsLast (suc h) v (last_loop fetch (suc fuel) (at_index v (count v - 1) ∷ refs))
  unfolding last_loop collect count
  down-IsLast h fuel v refs e w branch at found l = record {
    top = l.top;
    below = l.below;
    is_found = rw (branch, element-ok (at_index v (count v - 1)) e at, found) l.is_found;
    at_end = l.at_end;
    is_last = rw branch (
        last?-flat_map (child fetch (λ w'. collect fetch leaf_mark h w' 0)) (elements v) e
          l.top.view (sym (get_elem?-last (elements v)) ∙ at) (rw found l.is_last));
  }

  last_loop-IsLast :
      (h fuel : ℕ) (v : View) (refs : Stack)
      → h < fuel
      → IsTree fetch h v
      → IsLast h v (last_loop fetch fuel (at_index v (count v - 1) ∷ refs))
  unfolding count
  last_loop-IsLast h zero v refs lt t = absurd (omega arith)
  last_loop-IsLast zero (suc fuel) v refs lt t = leaf-IsLast zero fuel v refs t
  last_loop-IsLast (suc h) (suc fuel) v refs lt (inl l) = leaf-IsLast (suc h) fuel v refs l
  last_loop-IsLast (suc h) (suc fuel) v refs lt (inr (branch, pos, kids)) =
      let (e, at, split) = drop-get_elem? (length (elements v) - 1) (elements v) (omega arith) in
      let (w, found, t) = All-get_elem? _ (elements v) _ e kids at in
      down-IsLast h fuel v refs e w branch at found
        (last_loop-IsLast h fuel w (at_index v (count v - 1) ∷ refs) (omega arith) t)

  key_value-last : (r : Ref) → r.index ≡ count r.view - 1 → key_value r ≡ last? (elements r.view)
  unfolding key_value count
  key_value-last r e = value_at_last (elements r.view) r.index e

  -- With a round for each level: `Last` shows the last element of the last leaf. It shows none if
  -- that leaf is empty, whatever the other leaves hold.
  pub last-last? :
      (fuel h root : ℕ) (v : View)
      → fetch root ≡ ok v
      → IsTree fetch h v
      → h < fuel
      → (stack : Stack) × (w : View) × (last? (leaves_of fetch h v) ≡ some w)
        × (last fetch true fuel root ≡ ok (stack, visible (last? (elements w))))
  unfolding last
  last-last? fuel h root v found t d =
      let l = last_loop-IsLast h fuel v [] d t in
      (
        l.top ∷ l.below,
        l.top.view,
        l.is_last,
        rw (found, l.is_found, key_value-last l.top l.at_end) refl,
      )
