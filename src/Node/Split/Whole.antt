-- ===== src/Node/Split/Whole.antt =====
-- `split` ends, keeps the inodes in order, and leaves pages that are filled as the threshold says.
use bolt_analysis.Prelude.{
  ◌==◌, length-take, All-mono, take-append-drop, ◌∙◌, ap, length-drop, take, drop, false, leb→le,
  inl, inr, leb, Bool-cases, true, some, ◌⊎◌, length, ℕ, zero, suc, ◌+◌, ◌≤◌, ◌<◌, ◌≡◌, refl, arith,
  List, [], ◌∷◌, ◌++◌, All,
}
use Prim.Native.Nat.{min}
use bolt_analysis.Node.{Inode, Node, size, size_less_than, page_element_size}
use bolt_analysis.Node.Split.{split_index, Links, split_two, adopt, split_loop, split_node}
use bolt_analysis.Node.Split.Parts.{IsCutAt, split_index_lem}
use mathlib.Core.List.{append-nil}

-- The inodes of several nodes, one after the other.
abbrev pub all_inodes : List Node → List Inode
all_inodes [] = []
all_inodes (n ∷ ns) = n.inodes ++ all_inodes ns

-- A node that `splitTwo` leaves whole.
abbrev pub IsWhole : ℕ → Node → Type 0
IsWhole page_size n = (length n.inodes ≤ 4) ⊎ (size_less_than page_size n ≡ true)

-- All nodes but the last are within the threshold or have two inodes; the last is left whole.
abbrev pub AreFilled : ℕ → ℕ → List Node → Type 0
AreFilled page_size threshold [] = ⊥
AreFilled page_size threshold (a ∷ []) = IsWhole page_size a
AreFilled page_size threshold (a ∷ b ∷ rest) =
    ((length a.inodes ≡ 2) ⊎ (size a ≤ threshold)) × AreFilled page_size threshold (b ∷ rest)

-- What `split` makes of a node.
pub record IsSplit (page_size threshold : ℕ) (n : Node) (links : Links) (nodes : List Node)
    (links' : Links) : Type 0 where
  pub same_inodes : all_inodes nodes ≡ n.inodes
  pub filled : AreFilled page_size threshold nodes
  pub same_kind : All (λ a. a.is_leaf ≡ n.is_leaf) nodes
  pub enough : All (λ a. min 2 (length n.inodes) ≤ length a.inodes) nodes
  pub counted : links'.splits + 1 ≡ links.splits + length nodes

module _ (page_size threshold : ℕ) where
  whole-IsSplit :
      (n : Node) (links : Links)
      → IsWhole page_size n
      → IsSplit page_size threshold n links (n ∷ []) links
  whole-IsSplit n links w = record {
    same_inodes = append-nil n.inodes;
    filled = w;
    same_kind = (refl, tt);
    enough = (omega arith, tt);
    counted = omega arith;
  }

  first_filled :
      (n : Node) (r : ℕ)
      → IsCutAt threshold n r
      → (length (take r n.inodes) ≡ 2) ⊎ (size (record n { inodes = take r n.inodes }) ≤ threshold)
  unfolding size page_element_size
  first_filled n r cut = elim (Bool-cases (r == 2)) [
    | inl two ↦ inl (ground (arith, length-take r n.inodes, cut.last_three))
    | inr more ↦ inr (cut.filled (ground (arith, cut.first_two)))
  ]

  AreFilled-cons :
      (a : Node) (nodes : List Node)
      → (length a.inodes ≡ 2) ⊎ (size a ≤ threshold)
      → AreFilled page_size threshold nodes
      → AreFilled page_size threshold (a ∷ nodes)
  AreFilled-cons a [] h f = elim f [ ]
  AreFilled-cons a (b ∷ rest) h f = (h, f)

  -- The first page of a cut in front of a split of the rest.
  cut-IsSplit :
      (n : Node) (links : Links) (r : ℕ) (b : Node) (nodes : List Node) (links' : Links)
      (self next : ℕ)
      → IsCutAt threshold n r
      → 4 < length n.inodes
      → b.inodes ≡ drop r n.inodes
      → b.is_leaf ≡ n.is_leaf
      → IsSplit page_size threshold b (adopt self next links) nodes links'
      → IsSplit page_size threshold n links (record n { inodes = take r n.inodes } ∷ nodes) links'
  cut-IsSplit n links r b nodes links' self next cut many be kind s = record {
    same_inodes = ap (λ l. take r n.inodes ++ l) (s.same_inodes ∙ be) ∙ take-append-drop r n.inodes;
    filled =
        AreFilled-cons (record n { inodes = take r n.inodes }) nodes (first_filled n r cut)
          s.filled;
    same_kind = (
      refl,
      All-mono (λ a. a.is_leaf ≡ b.is_leaf) (λ a. a.is_leaf ≡ n.is_leaf) nodes (λ a e. e ∙ kind)
          s.same_kind,
    );
    enough = (
      omega (arith, length-take r n.inodes, cut.first_two, cut.last_three),
      All-mono (λ a. min 2 (length b.inodes) ≤ length a.inodes)
          (λ a. min 2 (length n.inodes) ≤ length a.inodes) nodes
          (λ a h. omega (arith, ap length be, length-drop r n.inodes, cut.last_three)) s.enough,
    );
    counted = omega (arith, s.counted);
  }

  split_loop-IsSplit :
      (fuel self next : ℕ) (n : Node) (links : Links)
      → length n.inodes < fuel
      → (nodes : List Node) × (links' : Links) × (split_loop fuel page_size threshold self next n
            links
          ≡ some (nodes, links'))
        × IsSplit page_size threshold n links nodes links'
  unfolding split_loop split_two
  split_loop-IsSplit zero self next n links h = absurd (omega arith)
  split_loop-IsSplit (suc fuel) self next n links h = elim (Bool-cases (leb (length n.inodes) 4)) [
    | inl few ↦
        (n ∷ [], links, rw few, whole-IsSplit n links (inl (leb→le (length n.inodes) 4 few)))
    | inr many ↦ elim (Bool-cases (size_less_than page_size n)) [
      | inl fits ↦ (n ∷ [], links, rw (many, fits), whole-IsSplit n links (inr fits))
      | inr large ↦
          let cut = split_index_lem threshold n (ground arith) in
          let r = (split_index threshold n).0 in
          let b : Node = record {
            is_leaf = n.is_leaf;
            unbalanced = false;
            spilled = false;
            key = [];
            pgid = 0;
            inodes = drop r n.inodes;
          } in
          let (nodes, links', e, s) =
            split_loop-IsSplit fuel next (next + 1) b (adopt self next links)
              (omega (arith, length-drop r n.inodes, cut.first_two, cut.last_three)) in
          (
            record n { inodes = take r n.inodes } ∷ nodes,
            links',
            rw (many, large, e),
            cut-IsSplit n links r b nodes links' self next cut (ground arith) refl refl s,
          )
    ]
  ]

  -- `split` ends: the inodes of its nodes, in order, are those of the node, and the nodes are of its
  -- kind; each node but the last has two inodes or is within the threshold, the last is one that
  -- `splitTwo` leaves whole, none has fewer than two inodes if the node had two, and each split is
  -- counted.
  pub split_lem :
      (self next : ℕ) (n : Node) (links : Links)
      → (nodes : List Node) × (links' : Links) × (split_node page_size threshold self next n links
          ≡ some (nodes, links'))
        × IsSplit page_size threshold n links nodes links'
  unfolding split_node
  split_lem self next n links =
      split_loop-IsSplit (length n.inodes + 1) self next n links (omega arith)
