-- ===== src/Node/Sizes.antt =====
-- `sizeLessThan` agrees with `size`.
use bolt_analysis.Prelude.{
  ◌∙◌, false, true, ◌==◌, Bool, length, ltb, ◌||◌, ℕ, ◌+◌, ◌≤◌, ◌≡◌, refl, arith, List, [], ◌∷◌,
}
use bolt_analysis.Node.{
  page_header_size, Inode, Node, item_size, add_sizes, size, less_than_loop, size_less_than,
  page_element_size,
}

pub add_sizes-le : (elsz sz : ℕ) (xs : List Inode) → sz ≤ add_sizes elsz sz xs
unfolding add_sizes
add_sizes-le elsz sz [] = omega arith
add_sizes-le elsz sz (x ∷ xs) = omega (arith, add_sizes-le elsz (sz + item_size elsz x) xs)

less_than_loop-eq :
    (elsz v sz : ℕ) (x : Inode) (xs : List Inode)
    → less_than_loop elsz v sz (x ∷ xs) ≡ ltb (add_sizes elsz sz (x ∷ xs)) v
unfolding less_than_loop add_sizes
less_than_loop-eq elsz v sz x [] = ground arith
less_than_loop-eq elsz v sz x (y ∷ ys) = ground (
  arith,
  less_than_loop-eq elsz v (sz + item_size elsz x) y ys,
  add_sizes-le elsz (sz + item_size elsz x) (y ∷ ys),
)

abbrev is_empty : List Inode → Bool
is_empty [] = true
is_empty (x ∷ xs) = false

less_than_loop-size :
    (elsz v sz : ℕ) (xs : List Inode)
    → less_than_loop elsz v sz xs ≡ (is_empty xs || ltb (add_sizes elsz sz xs) v)
less_than_loop-size elsz v sz [] = unfold less_than_loop in refl
less_than_loop-size elsz v sz (x ∷ xs) = less_than_loop-eq elsz v sz x xs

-- `sizeLessThan` stops early but answers as `size` does: a node is smaller than `v` exactly if its
-- size is, or if it has no inodes.
pub size_less_than-size :
    (v : ℕ) (n : Node) → size_less_than v n ≡ (length n.inodes == 0 || ltb (size n) v)
unfolding size_less_than size
size_less_than-size v n =
    less_than_loop-size (page_element_size n) v page_header_size n.inodes
    ∙ ground (arith, empty-length n.inodes)
  where
    empty-length : (xs : List Inode) → is_empty xs ≡ (length xs == 0)
    empty-length [] = refl
    empty-length (x ∷ xs) = ground arith
