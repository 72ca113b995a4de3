-- ===== src/Cursor/Search/Order.antt =====
-- Trees in the order of their keys, and the elements from a key on.
use mathlib.Core.List.{append-nil}
use bolt_analysis.Prelude.{
  none, some, get_elem?, suc, ◌≡◌, refl, sym, ap, ◌∙◌, subst, arith, Bool-cases, true, false, inl,
  inr, List, [], ◌∷◌, ◌++◌, All, All-append, All-mono, flat_map, drop, if◌then◌else◌,
}
use bolt_analysis.Bytes.{Bytes, less, equal, less_trans, compare_bytes_flip, equal_iff}
use bolt_analysis.Node.{Inode}
use bolt_analysis.Node.Keys.{find, IsAscending, place}
use bolt_analysis.Cursor.Search.Choice.{child_pos}

-- The elements from the first one on whose key is not below `key`.
abbrev pub from_key : Bytes → List Inode → List Inode
from_key key [] = []
from_key key (x ∷ xs) = if less x.key key then from_key key xs else x ∷ xs

-- Keys below `key`, and keys that are not.
abbrev pub AreBelow : Bytes → List Inode → Type 0
AreBelow key xs = All (λ x. less x.key key ≡ true) xs

abbrev pub AreFrom : Bytes → List Inode → Type 0
AreFrom key xs = All (λ x. less x.key key ≡ false) xs

from_key-below :
    (key : Bytes) (xs ys : List Inode) → AreBelow key xs → from_key key (xs ++ ys) ≡ from_key key ys
from_key-below key [] ys b = refl
from_key-below key (x ∷ xs) ys b = rw b.0 (from_key-below key xs ys b.1)

from_key-AreFrom : (key : Bytes) (ys : List Inode) → AreFrom key ys → from_key key ys ≡ ys
from_key-AreFrom key [] f = refl
from_key-AreFrom key (y ∷ ys) f = rw f.0

from_key-append :
    (key : Bytes) (xs ys : List Inode)
    → AreFrom key ys
    → from_key key (xs ++ ys) ≡ from_key key xs ++ ys
from_key-append key [] ys f = from_key-AreFrom key ys f
from_key-append key (x ∷ xs) ys f = elim (Bool-cases (less x.key key)) [
  | inl below ↦ rw below (from_key-append key xs ys f)
  | inr above ↦ rw above
]

-- In a leaf the search finds the place of the key.
pub drop-place : (key : Bytes) (xs : List Inode) → drop (place key xs) xs ≡ from_key key xs
drop-place key [] = refl
drop-place key (x ∷ xs) = elim (Bool-cases (less x.key key)) [
  | inl below ↦ rw below (drop-place key xs)
  | inr above ↦ rw above
]

less_le_trans : (a b c : Bytes) → less a b ≡ true → less c b ≡ false → less a c ≡ true
less_le_trans a b c h k = elim (Bool-cases (equal b c)) [
  | inl same ↦ subst (λ x. less a x ≡ true) ((equal_iff b c).0 same) h
  | inr other ↦ less_trans a b c h (ground (arith, compare_bytes_flip c b, compare_bytes_flip b c))
]

above_from :
    (key above : Bytes)
    → less key above ≡ true
    → (x : Inode) → less x.key above ≡ false
    → less x.key key ≡ false
above_from key above lt x h = ground (arith, less_trans x.key key above)

find-append :
    (key : Bytes) (xs ys : List Inode) → find key xs ≡ none → find key (xs ++ ys) ≡ find key ys
unfolding find
find-append key [] ys h = refl
find-append key (x ∷ xs) ys h = elim (Bool-cases (equal x.key key)) [
  | inl same ↦ absurd (ground (arith, rw same at h))
  | inr other ↦ rw other (find-append key xs ys (rw other at h))
]

find-append_none :
    (key : Bytes) (xs ys : List Inode) → find key ys ≡ none → find key (xs ++ ys) ≡ find key xs
unfolding find
find-append_none key [] ys h = h
find-append_none key (x ∷ xs) ys h = ground (arith, find-append_none key xs ys h)

find-AreFrom :
    (key above : Bytes) (xs : List Inode)
    → less key above ≡ true
    → AreFrom above xs
    → find key xs ≡ none
unfolding find
find-AreFrom key above [] lt f = refl
find-AreFrom key above (x ∷ xs) lt f = ground (
  arith,
  find-AreFrom key above xs lt f.1,
  less_le_trans key above x.key lt f.0,
  compare_bytes_flip x.key key,
)

find-AreBelow :
    (key bound : Bytes) (xs : List Inode)
    → less key bound ≡ false
    → AreBelow bound xs
    → find key xs ≡ none
unfolding find
find-AreBelow key bound [] le b = refl
find-AreBelow key bound (x ∷ xs) le b =
    ground (arith, find-AreBelow key bound xs le b.1, less_le_trans x.key bound key b.0 le)

module _ (items : Inode → List Inode) where
  -- The children of a branch: the elements of each but the last are below the next key, and those of
  -- each but the first are from its own key on.
  abbrev pub AreSeparated : List Inode → Type 0
  AreSeparated [] = Unit
  AreSeparated (e ∷ []) = Unit
  AreSeparated (e ∷ e' ∷ es) =
      AreBelow e'.key (items e) × AreFrom e'.key (items e') × AreSeparated (e' ∷ es)

  from-flat_map :
      (key : Bytes) (e : Inode) (es : List Inode)
      → less key e.key ≡ true
      → AreFrom e.key (items e)
      → IsAscending (e ∷ es)
      → AreSeparated (e ∷ es)
      → AreFrom key (flat_map items (e ∷ es))
  from-flat_map key e [] lt own s p = subst (AreFrom key) (sym (append-nil (items e))) (
      All-mono (λ x. less x.key e.key ≡ false) (λ x. less x.key key ≡ false) (items e)
        (above_from key e.key lt) own)
  from-flat_map key e (e' ∷ es) lt own s p =
      All-append (λ x. less x.key key ≡ false) (items e) (flat_map items (e' ∷ es))
        (All-mono (λ x. less x.key e.key ≡ false) (λ x. less x.key key ≡ false) (items e)
          (above_from key e.key lt) own)
        (from-flat_map key e' es (less_trans key e.key e'.key lt s.0.0) p.1 s.1 p.2)

  -- Only the child that the search chooses has elements on both sides of the key.
  pub from_key-flat_map :
      (key : Bytes) (e : Inode) (es : List Inode)
      → IsAscending (e ∷ es)
      → AreSeparated (e ∷ es)
      → (c : Inode) × (get_elem? (e ∷ es) (child_pos key (e ∷ es)) ≡ some c)
        × (drop (child_pos key (e ∷ es)) (e ∷ es)
            ≡ c ∷ drop (suc (child_pos key (e ∷ es))) (e ∷ es))
        × (from_key key (flat_map items (e ∷ es))
            ≡ from_key key (items c)
              ++ flat_map items (drop (suc (child_pos key (e ∷ es))) (e ∷ es)))
  from_key-flat_map key e [] s p = (
    e,
    refl,
    refl,
    ap (from_key key) (append-nil (items e)) ∙ sym (append-nil (from_key key (items e))),
  )
  from_key-flat_map key e (e' ∷ es) s p = elim (Bool-cases (less key e'.key)) [
    | inl here ↦ rw here (
      e,
      refl,
      refl,
      from_key-append key (items e) (flat_map items (e' ∷ es))
          (from-flat_map key e' es here p.1 s.1 p.2),
    )
    | inr later ↦
        let (c, at, split, whole) = from_key-flat_map key e' es s.1 p.2 in
        let below =
          All-mono (λ x. less x.key e'.key ≡ true) (λ x. less x.key key ≡ true) (items e)
            (λ x h. less_le_trans x.key e'.key key h later) p.0 in
        rw later
          (c, at, split, from_key-below key (items e) (flat_map items (e' ∷ es)) below ∙ whole)
  ]

  above-flat_map :
      (key : Bytes) (e : Inode) (es : List Inode)
      → less key e.key ≡ true
      → AreFrom e.key (items e)
      → IsAscending (e ∷ es)
      → AreSeparated (e ∷ es)
      → find key (flat_map items (e ∷ es)) ≡ none
  unfolding find
  above-flat_map key e [] lt own s p =
      find-append key (items e) [] (find-AreFrom key e.key (items e) lt own)
  above-flat_map key e (e' ∷ es) lt own s p =
      find-append key (items e) (flat_map items (e' ∷ es)) (find-AreFrom key e.key (items e) lt own)
      ∙ above-flat_map key e' es (less_trans key e.key e'.key lt s.0.0) p.1 s.1 p.2

  -- No other child has the key.
  pub find-flat_map :
      (key : Bytes) (e : Inode) (es : List Inode)
      → IsAscending (e ∷ es)
      → AreSeparated (e ∷ es)
      → (c : Inode) → get_elem? (e ∷ es) (child_pos key (e ∷ es)) ≡ some c
      → find key (flat_map items (e ∷ es)) ≡ find key (items c)
  find-flat_map key e [] s p c at =
      let same : e ≡ c = cc in
      ap (find key) (append-nil (items e)) ∙ ap (λ x. find key (items x)) same
  find-flat_map key e (e' ∷ es) s p c at = elim (Bool-cases (less key e'.key)) [
    | inl here ↦
        let first : some e ≡ some c = rw here at at in
        let same : e ≡ c = cc in
        find-append_none key (items e) (flat_map items (e' ∷ es))
          (above-flat_map key e' es here p.1 s.1 p.2)
        ∙ ap (λ x. find key (items x)) same
    | inr later ↦
        find-append key (items e) (flat_map items (e' ∷ es))
          (find-AreBelow key e'.key (items e) later p.0)
        ∙ find-flat_map key e' es s.1 p.2 c (rw later at at)
  ]
