-- ===== src/Node/Disk/Layout.antt =====
-- Where `write` puts the elements, the keys and the values, and how `read` finds one of them.
use bolt_analysis.Prelude.{
  ℕ, zero, suc, ◌+◌, ◌*◌, ◌-◌, ◌%◌, ◌^◌, ◌<◌, ◌≡◌, refl, sym, ap, ◌∙◌, arith, Bool, true, false,
  List, [], ◌∷◌, ◌++◌, All, length, length-append, drop, drop-length_append, ◌==◌,
}
use bolt_analysis.Prelude.Results.{ok}
use bolt_analysis.Memory.{field, field_at, field_at_lem, slice_lem, max_alloc_size}
use bolt_analysis.Page.Elements.{leaf_element, branch_element, leaf_key, leaf_value, branch_key}
use bolt_analysis.Node.{Inode}
use bolt_analysis.Node.Disk.{
  element_bytes, not_itself, checked_key, write_items, read_leaf, read_branch, read_item,
}

-- An inode that fits into an element of its kind.
abbrev pub IsStorable : Bool → ℕ → Inode → Type 0
IsStorable true id item = (0 < length item.key) × (item.flags < 2 ^ 32) × (item.pgid ≡ 0)
IsStorable false id item =
    (0 < length item.key)
    × (item.pgid < 2 ^ 64)
    × (item.flags ≡ 0)
    × (item.value ≡ [])
    × ((item.pgid == id) ≡ false)

unfoldable pub headers : Bool → ℕ → ℕ → List Inode → List ℕ
headers is_leaf i at [] = []
headers is_leaf i at (item ∷ items) =
    element_bytes is_leaf (at - 16 * i) item
    ++ headers is_leaf (i + 1) (at + length item.key + length item.value) items

unfoldable pub contents : List Inode → List ℕ
contents [] = []
contents (item ∷ items) = item.key ++ (item.value ++ contents items)

key_length :
    (is_leaf : Bool) (id : ℕ) (item : Inode) → IsStorable is_leaf id item → 0 < length item.key
key_length true id item s = s.0
key_length false id item s = s.0

pub checked :
    (is_leaf : Bool) (id : ℕ) (item : Inode)
    → IsStorable is_leaf id item
    → checked_key item ≡ ok item
unfolding checked_key
checked is_leaf id item s = let pos = key_length is_leaf id item s in ground arith

apart :
    (is_leaf : Bool) (id : ℕ) (item : Inode)
    → IsStorable is_leaf id item
    → not_itself is_leaf id item ≡ ok item
unfolding not_itself
apart true id item s = refl
apart false id item s = ground arith

pub write_items-eq :
    (is_leaf : Bool) (id i at : ℕ) (items : List Inode)
    → All (IsStorable is_leaf id) items
    → write_items is_leaf id i at items ≡ ok (headers is_leaf i at items, contents items)
unfolding write_items headers contents
write_items-eq is_leaf id i at [] s = refl
write_items-eq is_leaf id i at (item ∷ items) s =
    let ih =
      write_items-eq is_leaf id (i + 1) (at + length item.key + length item.value) items s.1 in
    let good = checked is_leaf id item s.0 in
    let other = apart is_leaf id item s.0 in rw (good, other, ih) refl

pub length-element_bytes :
    (is_leaf : Bool) (pos : ℕ) (item : Inode) → length (element_bytes is_leaf pos item) ≡ 16
unfolding element_bytes field
length-element_bytes true pos item = refl
length-element_bytes false pos item = refl

pub length-headers :
    (is_leaf : Bool) (i at : ℕ) (items : List Inode)
    → length (headers is_leaf i at items) ≡ 16 * length items
unfolding headers
length-headers is_leaf i at [] = refl
length-headers is_leaf i at (item ∷ items) =
    let rest = headers is_leaf (i + 1) (at + length item.key + length item.value) items in
    omega (
      arith,
      length-append (element_bytes is_leaf (at - 16 * i) item) rest,
      length-element_bytes is_leaf (at - 16 * i) item,
      length-headers is_leaf (i + 1) (at + length item.key + length item.value) items,
    )

drop_nothing {ℓ} : {A : Type ℓ} (n : ℕ) → drop {A = A} n [] ≡ []
drop_nothing zero = refl
drop_nothing (suc n) = refl

pub drop-drop {ℓ} : {A : Type ℓ} (m n : ℕ) (xs : List A) → drop n (drop m xs) ≡ drop (m + n) xs
drop-drop zero n xs = let same : 0 + n ≡ n = omega arith in rw same refl
drop-drop (suc m) n [] =
    let same : suc m + n ≡ suc (m + n) = omega arith in rw same (drop_nothing n)
drop-drop (suc m) n (x ∷ xs) =
    let same : suc m + n ≡ suc (m + n) = omega arith in rw same (drop-drop m n xs)

module _ (pos : ℕ) (item : Inode) (body : List ℕ) where
  leaf_fields :
      item.flags < 2 ^ 32
      → pos + length item.key + length item.value < max_alloc_size
      → (field_at 0 4 (element_bytes true pos item ++ body) ≡ item.flags)
        × (field_at 4 4 (element_bytes true pos item ++ body) ≡ pos)
        × (field_at 8 4 (element_bytes true pos item ++ body) ≡ length item.key)
        × (field_at 12 4 (element_bytes true pos item ++ body) ≡ length item.value)
  unfolding element_bytes field
  leaf_fields f b =
      let memory = element_bytes true pos item ++ body in
      let flags = field 4 item.flags in
      let at = field 4 pos in
      let ksize = field 4 (length item.key) in
      let vsize = field 4 (length item.value) in
      (
        field_at_lem 0 4 item.flags memory ((at ++ (ksize ++ vsize)) ++ body) (omega arith) refl,
        field_at_lem 4 4 pos memory ((ksize ++ vsize) ++ body) (omega arith) refl,
        field_at_lem 8 4 (length item.key) memory (vsize ++ body) (omega arith) refl,
        field_at_lem 12 4 (length item.value) memory body (omega arith) refl,
      )

  branch_fields :
      item.pgid < 2 ^ 64
      → pos + length item.key < max_alloc_size
      → (field_at 0 4 (element_bytes false pos item ++ body) ≡ pos)
        × (field_at 4 4 (element_bytes false pos item ++ body) ≡ length item.key)
        × (field_at 8 8 (element_bytes false pos item ++ body) ≡ item.pgid)
  unfolding element_bytes field
  branch_fields f b =
      let memory = element_bytes false pos item ++ body in
      let at = field 4 pos in
      let ksize = field 4 (length item.key) in
      let id = field 8 item.pgid in
      (
        field_at_lem 0 4 pos memory ((ksize ++ id) ++ body) (omega arith) refl,
        field_at_lem 4 4 (length item.key) memory (id ++ body) (omega arith) refl,
        field_at_lem 8 8 item.pgid memory body (omega arith) refl,
      )

  -- Where the key and the value of an element are behind it, it is read as its inode.
  pub read_item_lem :
      (is_leaf : Bool) (id : ℕ) (tail : List ℕ)
      → IsStorable is_leaf id item
      → pos + length item.key + length item.value < max_alloc_size
      → drop pos (element_bytes is_leaf pos item ++ body) ≡ item.key ++ (item.value ++ tail)
      → read_item is_leaf (element_bytes is_leaf pos item ++ body) ≡ ok item
  unfolding read_item read_leaf read_branch leaf_key leaf_value leaf_element branch_key
      branch_element
  read_item_lem true id tail (keyed, f, no_id) b there =
      let memory = element_bytes true pos item ++ body in
      let (flags, at, ksize, vsize) = leaf_fields f b in
      let key =
        slice_lem pos item.key memory (item.value ++ tail) (omega arith) (omega arith) there in
      let sum : (pos + length item.key) % 2 ^ 32 ≡ pos + length item.key = omega arith in
      let next : drop (pos + length item.key) memory ≡ item.value ++ tail =
        sym (drop-drop pos (length item.key) memory)
        ∙ ap (drop (length item.key)) there
        ∙ drop-length_append item.key (item.value ++ tail) refl in
      let value =
        slice_lem (pos + length item.key) item.value memory tail (omega arith) (omega arith) next in
      rw (flags, at, ksize, vsize, key, sum, value) cc
  read_item_lem false id tail (keyed, f, no_flags, no_value, other) b there =
      let memory = element_bytes false pos item ++ body in
      let (at, ksize, child) = branch_fields f (omega arith) in
      let key =
        slice_lem pos item.key memory (item.value ++ tail) (omega arith) (omega arith) there in
      rw (at, ksize, child, key) cc
