-- ===== src/Bucket/Found.antt =====
-- What `Get` returns, and when `Put` and `Delete` refuse, in terms of the elements of the leaves.
use bolt_analysis.Prelude.{
  head?, ℕ, ◌<◌, ◌≡◌, refl, sym, ap, ◌∙◌, subst, arith, Bool, true, false, not, List, [], ◌∷◌,
  Option, none, some, length, ltb, ◌==◌, ◌&&◌, if◌then◌else◌,
}
use bolt_analysis.Prelude.Results.{Result, ok, ◌>>=◌}
use bolt_analysis.Bytes.{Bytes, compare_bytes_flip}
use bolt_analysis.Errors.{
  Error, tx_closed, tx_not_writable, key_required, key_too_large, value_too_large,
  incompatible_value,
}
use bolt_analysis.Page.{has_flag}
use bolt_analysis.Panics.{Panic}
use bolt_analysis.Node.{Inode}
use bolt_analysis.Node as N
use bolt_analysis.Node.Keys.{place, find}
use bolt_analysis.Pages.{elements, View}
use bolt_analysis.Cursor.{at_index, Stack, bucket_leaf_flag}
use bolt_analysis.Cursor.Tree.{IsTree}
use bolt_analysis.Cursor.Enumeration.{items_of}
use bolt_analysis.Cursor.Search.{seek_key}
use bolt_analysis.Cursor.Search.Sought.{IsSearchable}
use bolt_analysis.Cursor.Search.Seek.{seek_key-leaf, with_key, seek_key-find}
use bolt_analysis.Bucket.{Bucket, page_node}
use bolt_analysis.Bucket.Pairs.{
  change_at, delete, sought, get, put, is_bucket, is_key, value_of, max_key_size, max_value_size,
}
use bolt_analysis.Cursor.Search.Order.{from_key}

-- The value of an element that is not a bucket.
abbrev pub plain : Option Inode → Option Bytes
plain none = none
plain (some e) = if has_flag e.flags bucket_leaf_flag then none else some e.value

unfoldable pub shown_value : Bytes → Option Inode → Option Bytes
unfolding is_bucket is_key value_of
shown_value key item =
    if is_bucket item then none else if not (is_key key item) then none else value_of item

pub shown_value-plain :
    (key : Bytes) (item : Option Inode) → shown_value key item ≡ plain (with_key key item)
unfolding shown_value
shown_value-plain key none = ground arith
shown_value-plain key (some e) = ground (arith, compare_bytes_flip e.key key)

-- A bucket whose pages are a tree in order, below its root.
pub record IsOrdered (b : Bucket) (h : ℕ) (v : View) : Type 0 where
  pub is_open : b.tx_open ≡ true
  pub is_root : page_node b b.root ≡ ok v
  pub is_tree : IsTree (page_node b) h v
  pub is_searchable : IsSearchable (page_node b) h v

pub sought-find :
    (b : Bucket) (height h : ℕ) (v : View) (key : Bytes)
    → IsOrdered b h v
    → h < height
    → (refs : Stack) × (item : Option Inode) × (sought b height key ≡ ok (refs, item))
      × (find key (items_of (page_node b) h v) ≡ with_key key item)
sought-find b height h v key o d =
    let (refs, item, at, same) =
      seek_key-find (page_node b) h height b.root key v o.is_root o.is_tree o.is_searchable d in
    (
      refs,
      item,
      subst (λ t. seek_key (page_node b) t height b.root key ≡ ok (refs, item)) (sym o.is_open) at,
      same,
    )

-- In an open transaction, in a tree with ascending keys whose children lie between the keys of their
-- branch, and with a round for each level: `Get` returns the value of the one element below the root
-- that has the key, and nil if there is none or it is a bucket.
pub get-find :
    (b : Bucket) (height h : ℕ) (v : View) (key : Bytes)
    → IsOrdered b h v
    → h < height
    → get b height key ≡ ok (plain (find key (items_of (page_node b) h v)))
unfolding get shown_value
get-find b height h v key o d =
    let (refs, item, at, same) = sought-find b height h v key o d in
    rw (at, same) (ap ok (shown_value-plain key item))

-- The error of `Put`, from the element that has the key.
unfoldable pub refusal : Bool → Bool → Bytes → Bytes → Option Inode → Option Error
unfolding is_bucket
refusal tx_open writable key value found =
    if not tx_open
    then some tx_closed
    else if not writable
    then some tx_not_writable
    else if length key == 0
    then some key_required
    else if ltb max_key_size (length key)
    then some key_too_large
    else if ltb max_value_size (length value)
    then some value_too_large
    else if is_bucket found
    then some incompatible_value
    else none

-- A refusal leaves the bucket as it is.
abbrev pub refused :
    Bucket
    → Option Error
    → Result Panic (Bucket × Option Error)
    → Result Panic (Bucket × Option Error)
refused b none go = go
refused b (some e) go = ok (b, some e)

pub test-with_key :
    (key : Bytes) (item : Option Inode)
    → (is_key key item && is_bucket item) ≡ is_bucket (with_key key item)
unfolding is_bucket is_key
test-with_key key none = ground arith
test-with_key key (some e) = ground (arith, compare_bytes_flip e.key key)

module _ (b : Bucket) (go : Result Panic (Bucket × Option Error)) where
  -- The checks of `Put`, as tests.
  pub checks :
      (opened writable empty long large held : Bool)
      → (if not opened
          then ok (b, some tx_closed)
          else if not writable
          then ok (b, some tx_not_writable)
          else if empty
          then ok (b, some key_required)
          else if long
          then ok (b, some key_too_large)
          else if large
          then ok (b, some value_too_large)
          else if held
          then ok (b, some incompatible_value)
          else go)
        ≡ refused b
            (if not opened
              then some tx_closed
              else if not writable
              then some tx_not_writable
              else if empty
              then some key_required
              else if long
              then some key_too_large
              else if large
              then some value_too_large
              else if held
              then some incompatible_value
              else none)
            go
  checks false writable empty long large held = refl
  checks true false empty long large held = refl
  checks true true true long large held = refl
  checks true true false true large held = refl
  checks true true false false true held = refl
  checks true true false false false true = refl
  checks true true false false false false = refl

-- In an open transaction, in a tree with ascending keys whose children lie between the keys of their
-- branch, and with a round for each level: `Put` refuses with the error that the checks and the
-- element with the key ask for, and leaves the bucket as it is then; otherwise it puts the key and
-- the value into the node of the cursor.
pub put-refusal :
    (b : Bucket) (height h : ℕ) (v : View) (key value : Bytes)
    → IsOrdered b h v
    → h < height
    → put b height key value
      ≡ refused b (refusal b.tx_open b.writable key value (find key (items_of (page_node b) h v))) (
          sought b height key >>= λ (refs, item). change_at (N.put b.high key key value 0 0) refs b)
unfolding put refusal
put-refusal b height h v key value o d =
    let (refs, item, at, same) = sought-find b height h v key o d in
    let test = test-with_key key item in
    rw (at, same, test)
      (checks b (change_at (N.put b.high key key value 0 0) refs b) b.tx_open b.writable _ _ _ _)

pub passed :
    {A : Type 0} (opened writable : Bool) (x y z : A)
    → opened ≡ true
    → writable ≡ true
    → (if not opened then x else if not writable then y else z) ≡ z
passed true true x y z o w = refl
passed true false x y z o w = cc
passed false writable x y z o w = cc

-- `Delete` looks at the element at the place of the key in the leaf that it finds, whatever the key
-- of that element is: in an open, writable transaction, in a bucket of one leaf, if the first element
-- from the key on is a bucket, `Delete` refuses with `ErrIncompatibleValue`.
pub delete-from_key :
    (b : Bucket) (height : ℕ) (v : View) (key : Bytes) (e : Inode) (others : List Inode)
    → IsOrdered b 0 v
    → 0 < height
    → b.writable ≡ true
    → from_key key (elements v) ≡ e ∷ others
    → has_flag e.flags bucket_leaf_flag ≡ true
    → delete b height key ≡ ok (b, some incompatible_value)
unfolding delete is_bucket
delete-from_key b height v key e others o d w here held =
    let at =
      seek_key-leaf (page_node b) height b.root key v o.is_root o.is_tree o.is_searchable d in
    let at' =
      subst
        (λ t.
          seek_key (page_node b) t height b.root key
          ≡ ok (at_index v (place key (elements v)) ∷ [], head? (from_key key (elements v))))
        (sym o.is_open) at in
    let present = at' ∙ ap (λ xs. ok (at_index v (place key (elements v)) ∷ [], head? xs)) here in
    passed b.tx_open b.writable _ _ _ o.is_open w ∙ rw (present, held) refl
