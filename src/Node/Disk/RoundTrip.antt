-- ===== src/Node/Disk/RoundTrip.antt =====
-- `read` finds in a page what `write` has put there, and `write` keeps to the size of the node.
use bolt_analysis.Prelude.{
  ◌==◌, leb, ℕ, ◌+◌, ◌*◌, ◌-◌, ◌<◌, ◌≤◌, ◌≡◌, refl, sym, ap, ◌∙◌, arith, Bool, true, false, List,
  [], ◌∷◌, ◌++◌, All, length, length-append, drop, drop-length_append, if◌then◌else◌,
}
use mathlib.Core.List.{append_assoc}
use Prim.Native.Nat.{bit_or}
use bolt_analysis.Prelude.Results.{ok, ◌>>=◌}
use bolt_analysis.Words.{u16_max}
use bolt_analysis.Memory.{max_alloc_size}
use bolt_analysis.Page.{has_flag, leaf_page_flag, branch_page_flag}
use bolt_analysis.Page.Elements.{BytesPage, element_memory}
use bolt_analysis.Node.{Inode, Node, size, add_sizes, item_size, page_element_size}
use bolt_analysis.Node.Disk.{
  first_key, element_bytes, read_item, read_items, read, write, write_items,
}
use bolt_analysis.Node.Disk.Layout.{
  IsStorable, headers, contents, checked, write_items-eq, length-element_bytes, length-headers,
  drop-drop, read_item_lem,
}

module _ (is_leaf : Bool) (id : ℕ) where
  -- The elements from one on, with the keys and values of those before it between.
  read_items_lem :
      (items : List Inode) (i at : ℕ) (done tail bytes : List ℕ)
      → All (IsStorable is_leaf id) items
      → at ≡ 16 * (i + length items) + length done
      → at + length (contents items) < max_alloc_size
      → drop (16 * i) bytes ≡ headers is_leaf i at items ++ (done ++ (contents items ++ tail))
      → read_items is_leaf (length items) i bytes ≡ ok items
  unfolding read_items headers contents element_memory
  read_items_lem [] i at done tail bytes s here small there = refl
  read_items_lem (item ∷ items) i at done tail bytes s here small there =
      let pos = at - 16 * i in
      let at' = at + length item.key + length item.value in
      let others = headers is_leaf (i + 1) at' items in
      let rest = item.key ++ (item.value ++ (contents items ++ tail)) in
      let body = others ++ (done ++ rest) in
      let eb = element_bytes is_leaf pos item in
      let lengths = ap (λ n. length item.key + n) (length-append item.value (contents items)) in
      let total = length-append item.key (item.value ++ contents items) in
      let whole : drop (16 * i) bytes ≡ eb ++ body =
        there
        ∙ ap (λ xs. (eb ++ others) ++ (done ++ xs))
            (append_assoc item.key (item.value ++ contents items) tail
              ∙ ap (λ xs. item.key ++ xs) (append_assoc item.value (contents items) tail))
        ∙ append_assoc eb others (done ++ rest) in
      let len : pos ≡ length (eb ++ (others ++ done)) = omega (
        arith,
        length-append eb (others ++ done),
        length-append others done,
        length-element_bytes is_leaf pos item,
        length-headers is_leaf (i + 1) at' items,
      ) in
      let found : drop pos (eb ++ body) ≡ rest =
        ap (drop pos) (
          sym (
            append_assoc eb (others ++ done) rest
            ∙ ap (λ xs. eb ++ xs) (append_assoc others done rest)))
        ∙ drop-length_append (eb ++ (others ++ done)) rest len in
      let first =
        ap (read_item is_leaf) whole
        ∙ read_item_lem pos item body is_leaf id (contents items ++ tail) s.0
            (omega (arith, total, lengths)) found in
      let good = checked is_leaf id item s.0 in
      let next : drop (16 * (i + 1)) bytes
          ≡ others ++ ((done ++ (item.key ++ item.value)) ++ (contents items ++ tail)) =
        ap (λ n. drop n bytes) (omega arith)
        ∙ sym (drop-drop (16 * i) 16 bytes)
        ∙ ap (drop 16) whole
        ∙ drop-length_append eb body (sym (length-element_bytes is_leaf pos item))
        ∙ ap (λ xs. others ++ xs)
            (ap (λ xs. done ++ xs) (sym (append_assoc item.key item.value (contents items ++ tail)))
              ∙ sym (append_assoc done (item.key ++ item.value) (contents items ++ tail))) in
      let ih =
        read_items_lem items (i + 1) at' (done ++ (item.key ++ item.value)) tail bytes s.1
          (omega
            (arith, length-append done (item.key ++ item.value), length-append item.key item.value))
          (omega (arith, total, lengths)) next in
      rw (first, good, ih) refl

-- The sizes that `size` adds up are those of the elements, the keys and the values.
add_sizes-contents :
    (sz : ℕ) (items : List Inode)
    → add_sizes 16 sz items ≡ sz + 16 * length items + length (contents items)
unfolding add_sizes contents
add_sizes-contents sz [] = omega arith
add_sizes-contents sz (item ∷ items) =
    let ih = add_sizes-contents (sz + item_size 16 item) items in
    let total = length-append item.key (item.value ++ contents items) in
    let values = length-append item.value (contents items) in omega (arith, ih, total, values)

same_element_size : (n : Node) → page_element_size n ≡ 16
unfolding page_element_size
same_element_size n = ground arith

size-contents : (n : Node) → size n ≡ 16 + 16 * length n.inodes + length (contents n.inodes)
unfolding size
size-contents n = rw (same_element_size n) (add_sizes-contents 16 n.inodes)

flag_read :
    (is_leaf : Bool)
    → has_flag (bit_or 0 (if is_leaf then leaf_page_flag else branch_page_flag)) leaf_page_flag
      ≡ is_leaf
flag_read true = refl
flag_read false = refl

-- The bytes that `write` puts over those of the page.
abbrev pub written : Bool → List Inode → List ℕ
written is_leaf items = headers is_leaf 0 (16 * length items) items ++ contents items

length-written : (n : Node) → 16 + length (written n.is_leaf n.inodes) ≡ size n
length-written n = omega (
  arith,
  size-contents n,
  length-append (headers n.is_leaf 0 (16 * length n.inodes) n.inodes) (contents n.inodes),
  length-headers n.is_leaf 0 (16 * length n.inodes) n.inodes,
)

abbrev pub page_after : Bool → List Inode → BytesPage → BytesPage
page_after is_leaf items p = record p {
  flags = bit_or p.flags (if is_leaf then leaf_page_flag else branch_page_flag);
  count = length items;
  bytes = written is_leaf items ++ drop (length (written is_leaf items)) p.bytes;
}

write_body :
    (is_leaf : Bool) (p : BytesPage) (items : List Inode)
    → All (IsStorable is_leaf p.id) items
    → (if length items == 0
        then ok (record p {
          flags = bit_or p.flags (if is_leaf then leaf_page_flag else branch_page_flag);
          count = 0;
        })
        else (write_items is_leaf p.id 0 (16 * length items) items >>= λ (elements, contents).
            ok (record p {
              flags = bit_or p.flags (if is_leaf then leaf_page_flag else branch_page_flag);
              count = length items;
              bytes = (elements ++ contents) ++ drop (length (elements ++ contents)) p.bytes;
            })))
      ≡ ok (page_after is_leaf items p)
unfolding headers contents
write_body is_leaf p [] s = refl
write_body is_leaf p (item ∷ items) s =
    let done = write_items-eq is_leaf p.id 0 (16 * length (item ∷ items)) (item ∷ items) s in
    let given : (length (item ∷ items) == 0) ≡ false = ground arith in rw (given, done) refl

pub write-page_after :
    (n : Node) (p : BytesPage)
    → All (IsStorable n.is_leaf p.id) n.inodes
    → length n.inodes < u16_max
    → write n p ≡ ok (page_after n.is_leaf n.inodes p)
unfolding write
write-page_after n p s few =
    let few' : leb u16_max (length n.inodes) ≡ false = ground arith in
    rw (few', same_element_size n) (write_body n.is_leaf p n.inodes s)

-- On a new page, whose flags are clear: a node that has fewer than 0xFFFF inodes and is at most
-- `maxAllocSize` bytes long, whose keys are not empty, whose flags fit into 32 bits and whose page ids
-- fit into 64 bits, and of which no inode refers to the page itself, is written without a panic.
-- `read` then finds the same kind and the same inodes, of which a leaf has no page ids and a branch
-- has no flags and values. Behind the first `size` bytes of the page nothing is changed.
pub read-write_page :
    (n m : Node) (p : BytesPage)
    → p.flags ≡ 0
    → length n.inodes < u16_max
    → size n ≤ max_alloc_size
    → All (IsStorable n.is_leaf p.id) n.inodes
    → (q : BytesPage) × (write n p ≡ ok q)
      × (read q m
          ≡ ok (record m {
            pgid = p.id;
            is_leaf = n.is_leaf;
            inodes = n.inodes;
            key = first_key n.inodes;
          }))
      × (drop (size n - 16) q.bytes ≡ drop (size n - 16) p.bytes)
unfolding read
read-write_page n m p fresh few short s =
    let w = written n.is_leaf n.inodes in
    let q = page_after n.is_leaf n.inodes p in
    let len : size n - 16 ≡ length w = omega (arith, length-written n) in
    let flag : has_flag q.flags leaf_page_flag ≡ n.is_leaf =
      ap
        (λ f.
          has_flag (bit_or f (if n.is_leaf then leaf_page_flag else branch_page_flag))
            leaf_page_flag)
        fresh
      ∙ flag_read n.is_leaf in
    let items =
      read_items_lem n.is_leaf p.id n.inodes 0 (16 * length n.inodes) [] (drop (length w) p.bytes)
        q.bytes s (omega arith) (omega (arith, size-contents n))
        (append_assoc (headers n.is_leaf 0 (16 * length n.inodes) n.inodes) (contents n.inodes)
          (drop (length w) p.bytes)) in
    (
      q,
      write-page_after n p s few,
      rw (flag, items) refl,
      rw len (drop-length_append w (drop (length w) p.bytes) refl),
    )
