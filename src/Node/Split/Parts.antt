-- ===== src/Node/Split/Parts.antt =====
-- Splitting a node keeps its inodes, in order, and fills each page as the threshold says.
use bolt_analysis.Prelude.{
  subst, sym, ◌∙◌, ap, take-take, length-take, inl, inr, ltb, Bool-cases, take, true, leb, length,
  ℕ, zero, suc, ◌+◌, ◌-◌, ◌≤◌, ◌<◌, ◌≡◌, refl, arith, List, [], ◌∷◌,
}
use bolt_analysis.Node.{page_header_size, Inode, Node, item_size, add_sizes, page_element_size}
use bolt_analysis.Node.Split.{index_loop, split_index}

-- The loop behind the first three inodes: the page that ends at the index is within the threshold.
record InLoop (elsz threshold i sz : ℕ) (xs : List Inode) (r : ℕ) : Type 0 where
  low : i ≤ r + 1
  high : r + 1 ≤ i + length xs
  fits : i ≤ r → add_sizes elsz sz (take (r - i) xs) ≤ threshold

fits_step :
    (elsz threshold sz d : ℕ) (x : Inode) (xs : List Inode)
    → sz ≤ threshold
    → ((d' : ℕ) → d ≡ suc d' → add_sizes elsz (sz + item_size elsz x) (take d' xs) ≤ threshold)
    → add_sizes elsz sz (take d (x ∷ xs)) ≤ threshold
unfolding add_sizes
fits_step elsz threshold sz zero x xs fit rest = fit
fits_step elsz threshold sz (suc d) x xs fit rest = rest d refl

index_loop-InLoop :
    (elsz threshold i index sz : ℕ) (xs : List Inode)
    → 2 ≤ index
    → index + 1 ≡ i
    → sz ≤ threshold
    → InLoop elsz threshold i sz xs (index_loop elsz threshold i index sz xs).0
unfolding index_loop add_sizes
index_loop-InLoop elsz threshold i index sz [] two e fit = record {
  low = omega arith;
  high = omega arith;
  fits = λ h. absurd (omega arith);
}
index_loop-InLoop elsz threshold i index sz (x ∷ xs) two e fit =
    let at_least : leb 2 i ≡ true = ground arith in
    elim (Bool-cases (ltb threshold (sz + item_size elsz x))) [
      | inl over ↦
          rw (at_least, over)
            (record {
              low = omega arith;
              high = omega arith;
              fits = λ h. let z : i - i ≡ 0 = omega arith in rw z fit;
            })
      | inr under ↦
          let ih =
            index_loop-InLoop elsz threshold (i + 1) i (sz + item_size elsz x) xs (omega arith) refl
              (ground arith) in
          rw (at_least, under)
            (record {
              low = omega (arith, ih.low);
              high = omega (arith, ih.high);
              fits = λ h. fits_step elsz threshold sz _ x xs fit (λ d' de.
                  let r = (index_loop elsz threshold (i + 1) i (sz + item_size elsz x) xs).0 in
                  let same : r - (i + 1) ≡ d' = omega arith in rw same at (ih.fits (omega arith)));
            })
    ]

-- Where `splitIndex` cuts: both sides keep enough inodes, and a first page of more than two is
-- within the threshold.
pub record IsCutAt (threshold : ℕ) (n : Node) (r : ℕ) : Type 0 where
  pub first_two : 2 ≤ r
  pub last_three : r + 3 ≤ length n.inodes
  pub filled :
      2 < r → add_sizes (page_element_size n) page_header_size (take r n.inodes) ≤ threshold

filled_three :
    (elsz threshold : ℕ) (x y z : Inode) (xs : List Inode) (m r : ℕ)
    → 2 < r
    → r ≤ m + 2
    → add_sizes elsz
        (page_header_size + item_size elsz x + item_size elsz y + item_size elsz z)
        (take (r - 3) (take m xs))
      ≤ threshold
    → add_sizes elsz page_header_size (take r (x ∷ y ∷ z ∷ xs)) ≤ threshold
unfolding add_sizes
filled_three elsz threshold x y z xs m zero h hi fit = absurd (omega arith)
filled_three elsz threshold x y z xs m (suc zero) h hi fit = absurd (omega arith)
filled_three elsz threshold x y z xs m (suc (suc zero)) h hi fit = absurd (omega arith)
filled_three elsz threshold x y z xs m (suc (suc (suc d))) h hi fit =
    let e : suc (suc (suc d)) - 3 ≡ d = omega arith in rw (e, take-take d m xs (omega arith)) at fit

index_loop-IsCutAt :
    (elsz threshold : ℕ) (x y z : Inode) (xs : List Inode) (m : ℕ)
    → m ≤ length xs
    → (r : ℕ) × (r ≡ (index_loop elsz threshold 0 0 page_header_size (x ∷ y ∷ z ∷ take m xs)).0)
      × (2 ≤ r)
      × (r ≤ m + 2)
      × (2 < r → add_sizes elsz page_header_size (take r (x ∷ y ∷ z ∷ xs)) ≤ threshold)
unfolding index_loop
index_loop-IsCutAt elsz threshold x y z xs m le =
    let sz2 = page_header_size + item_size elsz x + item_size elsz y in
    elim (Bool-cases (ltb threshold (sz2 + item_size elsz z))) [
      | inl over ↦ (2, rw over, omega arith, omega arith, λ h. absurd (omega arith))
      | inr under ↦
          let l =
            index_loop-InLoop elsz threshold 3 2 (sz2 + item_size elsz z) (take m xs) (omega arith)
              refl (ground arith) in
          (
            (index_loop elsz threshold 3 2 (sz2 + item_size elsz z) (take m xs)).0,
            rw under,
            omega (arith, l.low),
            omega (arith, l.high, length-take m xs),
            λ h.
                filled_three elsz threshold x y z xs m _ h (omega (arith, l.high, length-take m xs))
                  (l.fits (omega arith)),
          )
    ]

split_index_at :
    (threshold : ℕ) (n : Node) (xs : List Inode)
    → n.inodes ≡ xs
    → 4 < length xs
    → IsCutAt threshold n (split_index threshold n).0
unfolding split_index
split_index_at threshold n [] e h = absurd (omega arith)
split_index_at threshold n (x ∷ []) e h = absurd (omega arith)
split_index_at threshold n (x ∷ y ∷ []) e h = absurd (omega arith)
split_index_at threshold n (x ∷ y ∷ z ∷ xs) e h =
    let elsz = page_element_size n in
    let m : length (x ∷ y ∷ z ∷ xs) - 2 ≡ suc (suc (suc (length xs - 2))) = omega arith in
    let (r, re, lo, hi, fit) =
      index_loop-IsCutAt elsz threshold x y z xs (length xs - 2) (omega arith) in
    let cut : (split_index threshold n).0 ≡ r =
      ap (λ l. (index_loop elsz threshold 0 0 page_header_size (take (length l - 2) l)).0) e
      ∙ ap (λ k. (index_loop elsz threshold 0 0 page_header_size (take k (x ∷ y ∷ z ∷ xs))).0) m
      ∙ sym re in
    record {
      first_two = rw cut lo;
      last_three = rw cut (omega (arith, ap length e, hi));
      filled = λ more. rw cut (
          subst (λ l. add_sizes elsz page_header_size (take r l) ≤ threshold) (sym e)
            (fit (rw cut at more)));
    }

-- A node of more than four inodes is cut so that the first page has at least two and the second at
-- least three, and a first page of more than two is not larger than the threshold.
pub split_index_lem :
    (threshold : ℕ) (n : Node)
    → 4 < length n.inodes
    → IsCutAt threshold n (split_index threshold n).0
split_index_lem threshold n h = split_index_at threshold n n.inodes refl h
