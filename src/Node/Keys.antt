-- ===== src/Node/Keys.antt =====
-- Inodes in the order of their keys, and what `put` and `del` do to a look-up.
use bolt_analysis.Prelude.{
  get_or, ◌||◌, length, ap, leb, Bool, inl, inr, Bool-cases, All-mono, drop, if◌then◌else◌, not,
  take, true, ℕ, suc, ◌+◌, ◌≡◌, arith, List, [], ◌∷◌, ◌++◌, All, Option, none, some,
}
use bolt_analysis.Bytes.{Bytes, less, equal, less_trans}
use bolt_analysis.GoSort.Search.{position, IsCut, search-position}
use bolt_analysis.Node.{behind, Inode, empty_inode, search_key, is_exact}

-- Strictly ascending keys.
abbrev pub IsAscending : List Inode → Type 0
IsAscending [] = Unit
IsAscending (x ∷ xs) = All (λ y. less x.key y.key ≡ true) xs × IsAscending xs

-- The inode with a key, as a scan of the list finds it.
unfoldable pub find : Bytes → List Inode → Option Inode
find key [] = none
find key (x ∷ xs) = if equal x.key key then some x else find key xs

-- Insertion, replacement and removal, as a scan of the list does them.
unfoldable pub insert : Bytes → Inode → List Inode → List Inode
insert key new [] = new ∷ []
insert key new (x ∷ xs) =
    if less x.key key
    then x ∷ insert key new xs
    else if equal x.key key
    then new ∷ xs
    else new ∷ x ∷ xs

unfoldable pub remove : Bytes → List Inode → List Inode
remove key [] = []
remove key (x ∷ xs) =
    if less x.key key then x ∷ remove key xs else if equal x.key key then xs else x ∷ xs

-- The place where a key belongs.
abbrev pub place : Bytes → List Inode → ℕ
place key xs = position (λ x. not (less x.key key)) xs

IsAscending-IsCut :
    (key : Bytes) (xs : List Inode) → IsAscending xs → IsCut (λ x. not (less x.key key)) xs
IsAscending-IsCut key [] s = tt
IsAscending-IsCut key (x ∷ xs) s = (
  λ h.
      All-mono (λ y. less x.key y.key ≡ true) (λ y. not (less y.key key) ≡ true) xs
        (λ y le. ground (arith, less_trans x.key y.key key le)) s.0,
  IsAscending-IsCut key xs s.1,
)

pub search_key-place :
    (key : Bytes) (xs : List Inode) → IsAscending xs → search_key xs key ≡ place key xs
unfolding search_key
search_key-place key xs s =
    search-position (λ x. not (less x.key key)) empty_inode xs (IsAscending-IsCut key xs s)

is_exact-suc :
    (key : Bytes) (x : Inode) (xs : List Inode) (r : ℕ)
    → is_exact (x ∷ xs) (suc r) key ≡ is_exact xs r key
unfolding is_exact
is_exact-suc key x [] r = ground arith
is_exact-suc key x (y ∷ xs) r = ground arith

behind-suc :
    (key : Bytes) (x : Inode) (xs : List Inode) (r : ℕ)
    → behind key (x ∷ xs) (suc r) ≡ behind key xs r
unfolding behind
behind-suc key x xs r =
    let e : suc r + 1 ≡ suc (r + 1) = omega arith in rw (is_exact-suc key x xs r, e)

behind-zero :
    (key : Bytes) (x : Inode) (xs : List Inode)
    → behind key (x ∷ xs) 0 ≡ (if equal x.key key then xs else x ∷ xs)
unfolding behind
behind-zero key x xs = ground arith

-- The slices of `put` at the place are the scan.
pub insert-slices :
    (key : Bytes) (new : Inode) (xs : List Inode)
    → take (place key xs) xs ++ new ∷ behind key xs (place key xs) ≡ insert key new xs
unfolding insert
insert-slices key new [] = unfold behind in ground arith
insert-slices key new (x ∷ xs) = elim (Bool-cases (less x.key key)) [
  | inl below ↦
      rw (below, behind-suc key x xs (place key xs)) (ap (◌∷◌ x) (insert-slices key new xs))
  | inr not_below ↦ rw (not_below, behind-zero key x xs) (ground arith)
]

-- `del` at the place: what is cut out, if anything.
unfoldable pub missing : Bytes → List Inode → Bool
missing key xs =
    leb (length xs) (place key xs) || not (equal (get_or xs (place key xs) empty_inode).key key)

pub remove-slices :
    (key : Bytes) (xs : List Inode)
    → remove key xs
      ≡ (if missing key xs then xs else take (place key xs) xs ++ drop (place key xs + 1) xs)
unfolding remove missing
remove-slices key [] = ground arith
remove-slices key (x ∷ xs) = elim (Bool-cases (less x.key key)) [
  | inl below ↦
      let e : suc (place key xs) + 1 ≡ suc (place key xs + 1) = omega arith in
      rw below (rw e (ground (arith, remove-slices key xs)))
  | inr not_below ↦ rw not_below (ground arith)
]
