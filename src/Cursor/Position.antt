-- ===== src/Cursor/Position.antt =====
-- Where a cursor is: what it has behind it, what it shows on a leaf, and how it moves up.
use bolt_analysis.Prelude.{
  get_elem?, ℕ, zero, suc, ◌+◌, ◌≤◌, ◌<◌, ◌≡◌, refl, sym, ap, ◌∙◌, inl, inr, arith, Bool-cases,
  true, false, List, [], ◌∷◌, ◌++◌, Option, none, some, length, drop_all, drop-get_elem?, leb, ltb,
  ◌==◌,
}
use bolt_analysis.Prelude.Results.{Result}
use bolt_analysis.Panics.{Panic}
use bolt_analysis.Node.{Inode}
use bolt_analysis.Pages.{View, is_leaf, elements, count}
use bolt_analysis.Cursor.{Ref, at_index, Stack, advance, key_value}
use bolt_analysis.Cursor.Tree.{IsPath, leaf_items, leaf_mark, collect, after, rest, collect-leaf}

pub key_value-some :
    (r : Ref) (x : Inode)
    → r.index < count r.view
    → get_elem? (elements r.view) r.index ≡ some x
    → key_value r ≡ some x
unfolding key_value count
key_value-some r x inside at =
    let full : (length (elements r.view) == 0) ≡ false = ground arith in
    let within : leb (length (elements r.view)) r.index ≡ false = ground arith in
    rw (full, within, at)

pub key_value-none : (r : Ref) → count r.view ≡ 0 → key_value r ≡ none
unfolding key_value
key_value-none r e = rw e

module _ (fetch : ℕ → Result Panic View) where
  abbrev pub items_after : ℕ → Stack → List Inode
  items_after h refs = after fetch leaf_items h refs

  abbrev pub pages_after : ℕ → Stack → List View
  pages_after h refs = after fetch leaf_mark h refs

  collect_end {ℓ} :
      {B : Type ℓ} (leaf : View → ℕ → List B)
      → ((v : View) (i : ℕ) → length (elements v) ≤ i → 0 < i → leaf v i ≡ [])
      → (h : ℕ) (v : View) (i : ℕ) → length (elements v) ≤ i
      → 0 < i
      → collect fetch leaf h v i ≡ []
  unfolding collect
  collect_end leaf none_left zero v i le pos = none_left v i le pos
  collect_end leaf none_left (suc h) v i le pos = elim (Bool-cases (is_leaf v)) [
    | inl l ↦ rw l (none_left v i le pos)
    | inr b ↦ rw (b, drop_all i (elements v) le)
  ]

  -- What `advance` finds.
  pub data IsAdvanced (h : ℕ) (refs : Stack) : Option Stack → Type 0 where
    at_end : items_after h refs ≡ [] → IsAdvanced h refs none
    further :
        (h' : ℕ) (r : Ref) (below : Stack)
        → IsPath fetch h' (r ∷ below)
        → r.index < count r.view
        → rest fetch leaf_items h' (r ∷ below) ≡ items_after h refs
        → rest fetch leaf_mark h' (r ∷ below) ≡ pages_after h refs
        → h' + length (r ∷ below) ≡ h + length refs
        → IsAdvanced h refs (some (r ∷ below))

  skip-IsAdvanced :
      (h : ℕ) (r : Ref) (refs : Stack) {o : Option Stack}
      → count r.view ≤ r.index + 1
      → IsAdvanced (suc h) refs o
      → IsAdvanced h (r ∷ refs) o
  unfolding count
  skip-IsAdvanced h r refs le (at_end e) =
      let done =
        collect_end leaf_items (λ v i le _. drop_all i (elements v) le) h r.view (r.index + 1) le
          (omega arith) in
      at_end (rw done e)
  skip-IsAdvanced h r refs le (further h' s below p i items pages d) =
      let done =
        collect_end leaf_items (λ v i le _. drop_all i (elements v) le) h r.view (r.index + 1) le
          (omega arith) in
      let seen =
        collect_end leaf_mark (λ v i _ pos. ground arith) h r.view (r.index + 1) le (omega arith) in
      further h' s below p i (rw done items) (rw seen pages) (omega (arith, d))

  pub advance-IsAdvanced :
      (h : ℕ) (refs : Stack) → IsPath fetch h refs → IsAdvanced h refs (advance refs)
  unfolding advance
  advance-IsAdvanced h [] p = at_end refl
  advance-IsAdvanced h (r ∷ refs) p = elim (Bool-cases (ltb (r.index + 1) (count r.view))) [
    | inl more ↦
        rw more (further h (at_index r.view (r.index + 1)) refs p (ground arith) refl refl refl)
    | inr full ↦
        rw full (skip-IsAdvanced h r refs (ground arith) (advance-IsAdvanced (suc h) refs p.1))
  ]

  pub pages_after-le :
      (h : ℕ) (r : Ref) (refs : Stack)
      → is_leaf r.view ≡ true
      → length (pages_after h (r ∷ refs)) ≤ length (rest fetch leaf_mark h (r ∷ refs))
  pages_after-le h r refs l =
      rw
        (
          collect-leaf fetch leaf_mark h r.view r.index l,
          collect-leaf fetch leaf_mark h r.view (r.index + 1) l,
        )
        (ground arith)

  -- What a stack on a leaf shows.
  pub leaf_top :
      (h : ℕ) (r : Ref) (refs : Stack)
      → is_leaf r.view ≡ true
      → r.index < count r.view
      → (x : Inode) × (key_value r ≡ some x)
        × (x ∷ items_after h (r ∷ refs) ≡ rest fetch leaf_items h (r ∷ refs))
  unfolding count
  leaf_top h r refs l inside =
      let (x, at, split) = drop-get_elem? r.index (elements r.view) inside in
      let one : r.index + 1 ≡ suc r.index = omega arith in
      (
        x,
        key_value-some r x inside at,
        rw
            (
              collect-leaf fetch leaf_items h r.view r.index l,
              collect-leaf fetch leaf_items h r.view (r.index + 1) l,
              one,
            )
            (ap (λ m. m ++ items_after (suc h) refs) (sym split)),
      )

  pub leaf_past :
      (h : ℕ) (r : Ref) (refs : Stack)
      → is_leaf r.view ≡ true
      → count r.view ≤ r.index
      → items_after h (r ∷ refs) ≡ rest fetch leaf_items h (r ∷ refs)
  unfolding count
  leaf_past h r refs l e =
      let none_here = drop_all r.index (elements r.view) (omega arith) in
      let none_next = drop_all (r.index + 1) (elements r.view) (omega arith) in
      ap (λ m. m ++ items_after (suc h) refs)
        (collect-leaf fetch leaf_items h r.view (r.index + 1) l
          ∙ none_next
          ∙ sym (collect-leaf fetch leaf_items h r.view r.index l ∙ none_here))

  -- A leaf that is not passed yet counts as one page.
  pub length-marked :
      (h : ℕ) (r : Ref) (refs : Stack)
      → is_leaf r.view ≡ true
      → r.index ≡ 0
      → length (rest fetch leaf_mark h (r ∷ refs)) ≡ suc (length (pages_after h (r ∷ refs)))
  length-marked h r refs l z =
      rw
        (
          collect-leaf fetch leaf_mark h r.view r.index l,
          collect-leaf fetch leaf_mark h r.view (r.index + 1) l,
        )
        (ground arith)
