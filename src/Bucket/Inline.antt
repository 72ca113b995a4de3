-- ===== src/Bucket/Inline.antt =====
-- bucket.go: when a bucket is written into the value of its parent, and `BucketStats.Add`.
use bolt_analysis.Prelude.{
  ℕ, ◌+◌, ◌/◌, ◌≤◌, ◌≡◌, refl, arith, Bool-cases, Bool, true, false, not, inl, inr, List, [], ◌∷◌,
  Option, none, some, length, ltb, leb, ◌==◌, ◌&&◌, ◌||◌, if◌then◌else◌,
}
use bolt_analysis.Page.{has_flag, page_header_size}
use bolt_analysis.Node.{
  page_element_size, Inode, Node, size, add_sizes, item_size, leaf_page_element_size,
}
use bolt_analysis.Cursor.{bucket_leaf_flag}

-- `b.maxInlineBucketSize()`
unfoldable pub max_inline_bucket_size : ℕ → ℕ
max_inline_bucket_size page_size = page_size / 4

-- The loop of `inlineable`.
pub inline_loop : ℕ → ℕ → List Inode → Bool
inline_loop limit sz [] = true
inline_loop limit sz (inode ∷ inodes) =
    let sz' = sz + (leaf_page_element_size + length inode.key + length inode.value) in
    let rest = inline_loop limit sz' inodes in
    if has_flag inode.flags bucket_leaf_flag then false else if ltb limit sz' then false else rest

-- `b.inlineable()`, of the root node
unfoldable pub inlineable : ℕ → Option Node → Bool
unfolding inline_loop max_inline_bucket_size
inlineable page_size none = false
inlineable page_size (some n) =
    if not n.is_leaf
    then false
    else inline_loop (max_inline_bucket_size page_size) page_header_size n.inodes

-- No element is a bucket.
abbrev pub is_flat : List Inode → Bool
is_flat [] = true
is_flat (x ∷ xs) = not (has_flag x.flags bucket_leaf_flag) && is_flat xs

add_sizes-le : (elsz sz : ℕ) (xs : List Inode) → sz ≤ add_sizes elsz sz xs
unfolding add_sizes
add_sizes-le elsz sz [] = omega arith
add_sizes-le elsz sz (x ∷ xs) = omega (arith, add_sizes-le elsz (sz + item_size elsz x) xs)

-- One round of the loop, given what it does with the others.
inline_loop-step :
    (limit sz : ℕ) (x : Inode) (xs : List Inode)
    → (sz + item_size leaf_page_element_size x ≤ limit
        → inline_loop limit (sz + item_size leaf_page_element_size x) xs ≡ (
            is_flat xs
            && leb
                (add_sizes leaf_page_element_size (sz + item_size leaf_page_element_size x) xs)
                limit))
    → inline_loop limit sz (x ∷ xs)
      ≡ (is_flat (x ∷ xs) && leb (add_sizes leaf_page_element_size sz (x ∷ xs)) limit)
unfolding inline_loop add_sizes
inline_loop-step limit sz x xs others =
    let sz' = sz + item_size leaf_page_element_size x in
    elim (Bool-cases (has_flag x.flags bucket_leaf_flag)) [
      | inl bucket ↦ rw bucket
      | inr flat ↦ elim (Bool-cases (ltb limit sz')) [
        | inl over ↦
            let large : leb (add_sizes leaf_page_element_size sz' xs) limit ≡ false =
              ground (arith, add_sizes-le leaf_page_element_size sz' xs) in
            rw (flat, over, large) (ground arith)
        | inr within ↦ rw (flat, within) (others (ground arith))
      ]
    ]

inline_loop-add_sizes :
    (limit sz : ℕ) (xs : List Inode)
    → sz ≤ limit
    → inline_loop limit sz xs ≡ (is_flat xs && leb (add_sizes leaf_page_element_size sz xs) limit)
unfolding inline_loop add_sizes
inline_loop-add_sizes limit sz [] le = ground arith
inline_loop-add_sizes limit sz (x ∷ xs) le =
    inline_loop-step limit sz x xs
      (inline_loop-add_sizes limit (sz + item_size leaf_page_element_size x) xs)

inline_loop-size :
    (limit sz : ℕ) (xs : List Inode)
    → inline_loop limit sz xs
      ≡ (is_flat xs && (length xs == 0 || leb (add_sizes leaf_page_element_size sz xs) limit))
unfolding inline_loop
inline_loop-size limit sz [] = ground arith
inline_loop-size limit sz (x ∷ xs) =
    let full : (length (x ∷ xs) == 0) ≡ false = ground arith in
    rw full (inline_loop-step limit sz x xs (inline_loop-add_sizes limit _ xs))

-- A root node is inlined if it is a leaf without buckets and without elements or of a size of at
-- most a quarter of a page.
pub inlineable-size :
    (page_size : ℕ) (n : Node)
    → inlineable page_size (some n) ≡ (
        n.is_leaf
        && (is_flat n.inodes
            && (length n.inodes == 0 || leb (size n) (max_inline_bucket_size page_size))))
unfolding inlineable size page_element_size
inlineable-size page_size n = elim (Bool-cases n.is_leaf) [
  | inl leaf ↦
      rw leaf (inline_loop-size (max_inline_bucket_size page_size) page_header_size n.inodes)
  | inr branch ↦ rw branch refl
]
