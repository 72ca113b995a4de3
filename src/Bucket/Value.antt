-- ===== src/Bucket/Value.antt =====
-- bucket.go: `write` and `openBucket`, a bucket in the value of its element in the parent: its header, and
-- its root page behind it if it is inline. Where `openBucket` points into the value or copies it, the
-- bytes are the same.
use bolt_analysis.Prelude.{
  inl, inr, Bool-cases, ◌&&◌, leb, ◌+◌, ℕ, zero, suc, ◌-◌, ◌^◌, ◌<◌, ◌≤◌, ◌≡◌, refl, sym, ap, ◌∙◌,
  arith, Bool, true, false, List, [], ◌∷◌, ◌++◌, All, Option, none, some, length, drop, ◌==◌,
  if◌then◌else◌,
}
use Prim.Native.Nat.{bit_or}
use bolt_analysis.Prelude.Results.{err, Result, ok, ◌>>=◌}
use bolt_analysis.Words.{u16_max}
use bolt_analysis.Panics.{Panic, index_out_of_range}
use bolt_analysis.Memory.{field, field_at, field_at_lem, max_alloc_size}
use bolt_analysis.Page.{leaf_page_flag, branch_page_flag}
use bolt_analysis.Page.Elements.{BytesPage}
use bolt_analysis.Node.{Node, size}
use bolt_analysis.Node.Disk as Disk
use bolt_analysis.Node.Disk.{first_key}
use bolt_analysis.Node.Disk.Layout.{IsStorable}
use bolt_analysis.Node.Disk.RoundTrip.{page_after, write-page_after, read-write_page}

unfoldable pub zeros : ℕ → List ℕ
zeros zero = []
zeros (suc n) = 0 ∷ zeros n

-- The bytes of a page with its header.
unfoldable pub page_image : BytesPage → List ℕ
page_image p =
    field 8 p.id ++ (field 2 p.flags ++ (field 2 p.count ++ (field 4 p.overflow ++ p.bytes)))

-- The page that some memory is taken for.
unfoldable pub page_in : List ℕ → BytesPage
page_in memory = record {
  id = field_at 0 8 memory;
  flags = field_at 8 2 memory;
  count = field_at 10 2 memory;
  overflow = field_at 12 4 memory;
  bytes = drop 16 memory;
}

-- The page behind the header in a new value.
abbrev pub value_page : ℕ → BytesPage
value_page room = record { id = 0; flags = 0; count = 0; overflow = 0; bytes = zeros (room - 16) }

-- `b.write()`, of the root page id, the sequence and the root node
unfoldable pub write : ℕ → ℕ → Node → Result Panic (List ℕ)
unfolding Disk.write page_image
write root sequence n = do
  p ← Disk.write n (value_page (size n))
  ok (field 8 root ++ (field 8 sequence ++ page_image p))

-- What `openBucket` makes of a value.
pub record Opened : Type 0 where
  pub root : ℕ
  pub sequence : ℕ
  pub page : Option BytesPage

-- The header of a bucket in a value, and the page behind it.
unfoldable pub opened_value : List ℕ → Opened
unfolding page_in
opened_value value =
    let root = field_at 0 8 value in
    record {
      root = root;
      sequence = field_at 8 8 value;
      page = if root == 0 then some (page_in (drop 16 value)) else none;
    }

-- `b.openBucket(value)`, with the panics of `value[0]` and `value[bucketHeaderSize]`
unfoldable pub open_bucket : List ℕ → Result Panic Opened
unfolding opened_value
open_bucket value =
    if length value == 0
    then err index_out_of_range
    else if field_at 0 8 value == 0 && leb (length value) 16
    then err index_out_of_range
    else ok (opened_value value)

open_bucket-opened_value :
    (value : List ℕ) → 16 < length value → open_bucket value ≡ ok (opened_value value)
unfolding open_bucket
open_bucket-opened_value value long =
    let some_bytes : (length value == 0) ≡ false = ground arith in
    let more : leb (length value) 16 ≡ false = ground arith in
    rw (some_bytes, more)
      (elim (Bool-cases (field_at 0 8 value == 0)) [
        | inl inline ↦ rw inline refl
        | inr other ↦ rw other refl
      ])

page_in-image :
    (p : BytesPage)
    → p.id < 2 ^ 64
    → p.flags < 2 ^ 16
    → p.count < 2 ^ 16
    → p.overflow < 2 ^ 32
    → page_in (page_image p) ≡ p
unfolding page_in page_image field
page_in-image p i f c o =
    let memory = page_image p in
    let id = field 8 p.id in
    let flags = field 2 p.flags in
    let count = field 2 p.count in
    let overflow = field 4 p.overflow in
    let e0 =
      field_at_lem 0 8 p.id memory (flags ++ (count ++ (overflow ++ p.bytes))) (omega arith) refl in
    let e1 = field_at_lem 8 2 p.flags memory (count ++ (overflow ++ p.bytes)) (omega arith) refl in
    let e2 = field_at_lem 10 2 p.count memory (overflow ++ p.bytes) (omega arith) refl in
    let e3 = field_at_lem 12 4 p.overflow memory p.bytes (omega arith) refl in
    λ t. record { id = e0 t; flags = e1 t; count = e2 t; overflow = e3 t; bytes = p.bytes }

header_fields :
    (root sequence : ℕ) (rest : List ℕ)
    → root < 2 ^ 64
    → sequence < 2 ^ 64
    → (field_at 0 8 (field 8 root ++ (field 8 sequence ++ rest)) ≡ root)
      × (field_at 8 8 (field 8 root ++ (field 8 sequence ++ rest)) ≡ sequence)
      × (drop 16 (field 8 root ++ (field 8 sequence ++ rest)) ≡ rest)
      × (length (field 8 root ++ (field 8 sequence ++ rest)) ≡ 16 + length rest)
unfolding field
header_fields root sequence rest r s =
    let memory = field 8 root ++ (field 8 sequence ++ rest) in
    (
      field_at_lem 0 8 root memory (field 8 sequence ++ rest) (omega arith) refl,
      field_at_lem 8 8 sequence memory rest (omega arith) refl,
      refl,
      omega arith,
    )

image_length : (p : BytesPage) → 0 < length (page_image p)
unfolding page_image field
image_length p = omega arith

new_flag :
    (is_leaf : Bool) → bit_or 0 (if is_leaf then leaf_page_flag else branch_page_flag) < 2 ^ 16
new_flag true = omega arith
new_flag false = omega arith

length-zeros : (n : ℕ) → length (zeros n) ≡ n
unfolding zeros
length-zeros zero = refl
length-zeros (suc n) = ap suc (length-zeros n)

-- A bucket whose root node has fewer than 0xFFFF inodes and is at most `maxAllocSize` bytes long, with
-- keys that are not empty, flags that fit into 32 bits and page ids that fit into 64 and are not 0, and of
-- which a leaf has no page ids and a branch no flags and values: it is written without a panic.
-- `openBucket` of the value does not panic, and finds its root page id and its sequence. If the id is 0, it finds an inline
-- page, from which `read` makes a node of the same kind with the same inodes.
pub open_bucket-write :
    (root sequence : ℕ) (n m : Node)
    → root < 2 ^ 64
    → sequence < 2 ^ 64
    → length n.inodes < u16_max
    → size n ≤ max_alloc_size
    → All (IsStorable n.is_leaf 0) n.inodes
    → (value : List ℕ) × (write root sequence n ≡ ok value)
      × (o : Opened) × (open_bucket value ≡ ok o)
      × (o.root ≡ root)
      × (o.sequence ≡ sequence)
      × (root ≡ 0
          → (p : BytesPage) × (o.page ≡ some p)
            × (Disk.read p m
                ≡ ok (record m {
                  pgid = 0;
                  is_leaf = n.is_leaf;
                  inodes = n.inodes;
                  key = first_key n.inodes;
                })))
unfolding write opened_value
open_bucket-write root sequence n m r s few short storable =
    let q = page_after n.is_leaf n.inodes (value_page (size n)) in
    let done = write-page_after n (value_page (size n)) storable few in
    let (at, seq, rest, len) = header_fields root sequence (page_image q) r s in
    let value = field 8 root ++ (field 8 sequence ++ page_image q) in
    let same = page_in-image q (omega arith) (new_flag n.is_leaf) (omega arith) (omega arith) in
    let (p, is_p, is_read, behind) =
      read-write_page n m (value_page (size n)) refl few short storable in
    let is_q : p ≡ q = page-injective (sym is_p ∙ done) in
    (
      value,
      rw done refl,
      opened_value value,
      open_bucket-opened_value value (omega (arith, image_length q)),
      at,
      seq,
      λ zero. (q, rw (at, rest, same, zero) refl, ap (λ x. Disk.read x m) (sym is_q) ∙ is_read),
    )
  where
    page-injective : {x y : BytesPage} → ◌≡◌ {A = Result Panic BytesPage} (ok x) (ok y) → x ≡ y
    page-injective e = cc
