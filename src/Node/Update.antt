-- ===== src/Node/Update.antt =====
-- `put` and `del` keep the order of the keys and change the look-up of one key alone.
use bolt_analysis.Prelude.{
  drop, take, Bool, ◌==◌, false, leb, length, ap, sym, ◌∙◌, All-mono, subst, inl, inr, Bool-cases,
  if◌then◌else◌, true, ℕ, ◌+◌, ◌≡◌, ◌<◌, refl, arith, List, [], ◌∷◌, ◌++◌, All, Option, none, some,
}
use bolt_analysis.Prelude.Results.{ok}
use bolt_analysis.Bytes.{
  le_less_trans, compare_bytes-of_eq, eq-of_compare_bytes, Bytes, less, equal, compare_bytes,
  less_trans, compare_bytes_flip, equal_iff,
}
use bolt_analysis.Node.{Inode, Node, put, del}
use bolt_analysis.Node.Keys.{
  IsAscending, find, insert, remove, place, search_key-place, insert-slices, missing, remove-slices,
}

module _ (key j : Bytes) where
  find-insert :
      (new : Inode) (xs : List Inode)
      → new.key ≡ key
      → find j (insert key new xs) ≡ (if equal key j then some new else find j xs)
  unfolding find insert
  find-insert new [] e = rw e refl
  find-insert new (x ∷ xs) e = ground (
    arith,
    e,
    eq-of_compare_bytes key j,
    eq-of_compare_bytes x.key j,
    eq-of_compare_bytes x.key key,
    compare_bytes-of_eq x.key key,
    compare_bytes-of_eq new.key j,
    find-insert new xs e,
  )

  find-above : (xs : List Inode) → All (λ y. less j y.key ≡ true) xs → find j xs ≡ none
  unfolding find
  find-above [] h = refl
  find-above (x ∷ xs) h = ground (arith, find-above xs h.1, compare_bytes_flip j x.key)

  find-remove :
      (xs : List Inode)
      → IsAscending xs
      → find j (remove key xs) ≡ (if equal key j then none else find j xs)
  unfolding find remove
  find-remove [] s = ground arith
  find-remove (x ∷ xs) s = elim (Bool-cases (less x.key key)) [
    | inl below ↦ rw below (
        ground (
          arith,
          eq-of_compare_bytes key j,
          compare_bytes-of_eq x.key j,
          compare_bytes-of_eq x.key key,
          eq-of_compare_bytes x.key j,
          find-remove xs s.1,
        ))
    | inr not_below ↦ elim (Bool-cases (equal key j)) [
      | inl same ↦
          let e = (equal_iff key j).0 same in
          let gone = find-above xs (
            All-mono (λ y. less x.key y.key ≡ true) (λ y. less j y.key ≡ true) xs
              (λ y h. le_less_trans j x.key y.key (ground (arith, ap (compare_bytes x.key) e)) h)
              s.0) in
          rw (not_below, same) (ground (arith, gone, ap (compare_bytes x.key) e))
      | inr other ↦
          rw (not_below, other)
            (ground (
              arith,
              eq-of_compare_bytes x.key key,
              compare_bytes-of_eq key j,
              eq-of_compare_bytes x.key j,
            ))
    ]
  ]

abbrev is_none : Option Inode → Bool
is_none none = true
is_none (some x) = false

missing-find :
    (key : Bytes) (xs : List Inode) → IsAscending xs → missing key xs ≡ is_none (find key xs)
unfolding missing find
missing-find key [] s = ground arith
missing-find key (x ∷ xs) s = elim (Bool-cases (less x.key key)) [
  | inl below ↦ rw below (ground (arith, missing-find key xs s.1))
  | inr not_below ↦ elim (Bool-cases (equal x.key key)) [
    | inl same ↦ rw not_below (ground arith)
    | inr other ↦ rw not_below (
        ground (
          arith,
          find-above key key xs (
              All-mono (λ y. less x.key y.key ≡ true) (λ y. less key y.key ≡ true) xs
                (λ y h. le_less_trans key x.key y.key not_below h) s.0),
        ))
  ]
]

All-insert {ℓ} :
    (P : Inode → Type ℓ) (key : Bytes) (new : Inode) (xs : List Inode)
    → P new
    → All P xs
    → All P (insert key new xs)
unfolding insert
All-insert P key new [] pn h = (pn, tt)
All-insert P key new (x ∷ xs) pn h = elim (Bool-cases (less x.key key)) [
  | inl below ↦ rw below (h.0, All-insert P key new xs pn h.1)
  | inr above ↦ elim (Bool-cases (equal x.key key)) [
    | inl same ↦ rw (above, same) (pn, h.1)
    | inr other ↦ rw (above, other) (pn, (h.0, h.1))
  ]
]

All-remove {ℓ} :
    (P : Inode → Type ℓ) (key : Bytes) (xs : List Inode) → All P xs → All P (remove key xs)
unfolding remove
All-remove P key [] h = tt
All-remove P key (x ∷ xs) h = elim (Bool-cases (less x.key key)) [
  | inl below ↦ rw below (h.0, All-remove P key xs h.1)
  | inr above ↦ elim (Bool-cases (equal x.key key)) [
    | inl same ↦ rw (above, same) h.1
    | inr other ↦ rw (above, other) h
  ]
]

insert-IsAscending :
    (key : Bytes) (new : Inode) (xs : List Inode)
    → new.key ≡ key
    → IsAscending xs
    → IsAscending (insert key new xs)
unfolding insert
insert-IsAscending key new [] e s = (tt, tt)
insert-IsAscending key new (x ∷ xs) e s = elim (Bool-cases (less x.key key)) [
  | inl below ↦ rw below (
    All-insert (λ y. less x.key y.key ≡ true) key new xs (rw e below) s.0,
    insert-IsAscending key new xs e s.1,
  )
  | inr above ↦ elim (Bool-cases (equal x.key key)) [
    | inl same ↦
        rw (above, same)
          (
            subst (λ k. All (λ y. less k y.key ≡ true) xs) ((equal_iff x.key key).0 same ∙ sym e)
                s.0,
            s.1,
          )
    | inr other ↦
        let first : less new.key x.key ≡ true =
          rw e (ground (arith, compare_bytes_flip x.key key)) in
        rw (above, other)
          (
            (
              first,
              All-mono (λ y. less x.key y.key ≡ true) (λ y. less new.key y.key ≡ true) xs
                  (λ y h. less_trans new.key x.key y.key first h) s.0,
            ),
            s,
          )
  ]
]

remove-IsAscending : (key : Bytes) (xs : List Inode) → IsAscending xs → IsAscending (remove key xs)
unfolding remove
remove-IsAscending key [] s = tt
remove-IsAscending key (x ∷ xs) s = elim (Bool-cases (less x.key key)) [
  | inl below ↦
      rw below (All-remove (λ y. less x.key y.key ≡ true) key xs s.0, remove-IsAscending key xs s.1)
  | inr above ↦ elim (Bool-cases (equal x.key key)) [
    | inl same ↦ rw (above, same) s.1
    | inr other ↦ rw (above, other) s
  ]
]

-- What `put` writes.
abbrev pub written : Bytes → Bytes → ℕ → ℕ → Inode
written key value pgid flags = record { flags = flags; pgid = pgid; key = key; value = value }

module _ (n : Node) (asc : IsAscending n.inodes) where
  put-eq :
      (high : ℕ) (old_key new_key value : Bytes) (pgid flags : ℕ)
      → pgid < high
      → 0 < length old_key
      → 0 < length new_key
      → put high old_key new_key value pgid flags n
        ≡ ok (record n { inodes = insert old_key (written new_key value pgid flags) n.inodes })
  unfolding put
  put-eq high old_key new_key value pgid flags below old_pos new_pos =
      let low : leb high pgid ≡ false = ground arith in
      let has_old : (length old_key == 0) ≡ false = ground arith in
      let has_new : (length new_key == 0) ≡ false = ground arith in
      rw (low, has_old, has_new, search_key-place old_key n.inodes asc)
        (ap (λ l. ok (record n { inodes = l }))
          (insert-slices old_key (written new_key value pgid flags) n.inodes))

  -- On a node with ascending keys, `put` of a key that is not empty, with a page id below the high
  -- water mark, succeeds: the keys ascend again, the key is found with what was written, and every
  -- other key as before. No other field of the node changes.
  pub put_lem :
      (high : ℕ) (key value : Bytes) (pgid flags : ℕ)
      → pgid < high
      → 0 < length key
      → (inodes : List Inode) × (put high key key value pgid flags n
          ≡ ok (record n { inodes = inodes }))
        × IsAscending inodes
        × ((j : Bytes)
            → find j inodes
              ≡ (if equal key j then some (written key value pgid flags) else find j n.inodes))
  put_lem high key value pgid flags below pos =
      let new = written key value pgid flags in
      (
        insert key new n.inodes,
        put-eq high key key value pgid flags below pos pos,
        insert-IsAscending key new n.inodes refl asc,
        λ j. find-insert key j new n.inodes refl,
      )

  del-eq : (key : Bytes) → (del key n).inodes ≡ remove key n.inodes
  unfolding del missing
  del-eq key = rw (search_key-place key n.inodes asc) (ground (arith, remove-slices key n.inodes))

  -- On a node with ascending keys, `del` leaves ascending keys, the key is no longer found, and
  -- every other key as before.
  pub del_lem :
      (key : Bytes)
      → IsAscending (del key n).inodes
        × ((j : Bytes)
            → find j (del key n).inodes ≡ (if equal key j then none else find j n.inodes))
  del_lem key =
      rw (del-eq key) (remove-IsAscending key n.inodes asc, λ j. find-remove key j n.inodes asc)

  del-missing :
      (key : Bytes)
      → del key n ≡ (
          if missing key n.inodes then n else record n {
            inodes = take (place key n.inodes) n.inodes ++ drop (place key n.inodes + 1) n.inodes;
            unbalanced = true;
          })
  unfolding del missing
  del-missing key = rw (search_key-place key n.inodes asc)

  -- On a node with ascending keys, `del` marks the node for rebalancing exactly if it finds the key,
  -- and otherwise changes nothing.
  pub del_marks :
      (key : Bytes)
      → ((find key n.inodes ≡ none) → del key n ≡ n)
        × ((x : Inode) → find key n.inodes ≡ some x → (del key n).unbalanced ≡ true)
  del_marks key = (
    λ none_found. del-missing key ∙ ground (arith, missing-find key n.inodes asc, none_found),
    λ x found.
        ap (λ (m : Node). m.unbalanced) (del-missing key)
        ∙ ground (arith, missing-find key n.inodes asc, found),
  )
