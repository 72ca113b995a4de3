-- ===== src/Bucket.antt =====
-- bucket.go: a bucket of an open transaction, how it finds its pages, and its loop over all pairs.
pub mod Each
pub mod Nodes
pub mod Value
pub mod Create
pub mod Pairs
pub mod Found
pub mod Loaded
pub mod Path
pub mod Entries
pub mod Changed
pub mod Kept
pub mod Written
pub mod Model
pub mod Runs
pub mod Created
pub mod Inline
use bolt_analysis.Prelude.{
  ℕ, zero, suc, ◌+◌, Bool, true, false, not, List, [], ◌∷◌, Option, none, some, ◌==◌, if◌then◌else◌,
}
use bolt_analysis.Prelude.Results.{Result, ok, err, ◌>>=◌}
use bolt_analysis.Bytes.{Bytes}
use bolt_analysis.Errors.{Error, tx_closed}
use bolt_analysis.Panics.{Panic, diverged, nil_pointer, inline_page_access}
use bolt_analysis.Node.{Node}
use bolt_analysis.Pages.{ElementPage, View, of_page, of_node}
use bolt_analysis.Cursor.{Stack, first, next}

-- The bucket, with what it reads of its transaction: whether that is open and writable, its pages and
-- its high water mark. Nodes are known by the page id they are cached under, which is their `pgid`
-- until they are spilled; so are the parent and the children of each.
pub record Bucket : Type 0 where
  pub root : ℕ
  pub sequence : ℕ
  pub page : Option ElementPage
  pub root_node : Option ℕ
  pub has_nodes : Bool
  pub nodes : ℕ → Option Node
  pub parents : ℕ → Option ℕ
  pub children : ℕ → List ℕ
  pub tx_open : Bool
  pub writable : Bool
  pub tx_page : ℕ → ElementPage
  pub high : ℕ
  pub node_count : ℕ

node_view : Option Node → Result Panic View
node_view none = err nil_pointer
node_view (some n) = ok (of_node n)

inline_view : (ℕ → Option Node) → Option ℕ → Option ElementPage → Result Panic View
unfolding node_view
inline_view nodes (some id) p = node_view (nodes id)
inline_view nodes none (some p) = ok (of_page p)
inline_view nodes none none = err nil_pointer

unfoldable pub cached_view : Option Node → ElementPage → View
cached_view (some n) p = of_node n
cached_view none p = of_page p

-- `b.pageNode(id)`
unfoldable pub page_node : Bucket → ℕ → Result Panic View
unfolding inline_view cached_view
page_node b id =
    if b.root == 0
    then (if not (id == 0)
        then err (inline_page_access id)
        else inline_view b.nodes b.root_node b.page)
    else ok (cached_view (b.nodes id) (b.tx_page id))

-- What a function that is called for each pair does to the state of its caller, and its error.
abbrev pub Visitor : Type 0 → Type 0
Visitor S = Bytes → Option Bytes → S → S × Option Error

module _ {S : Type 0} (fn : Visitor S) where
  -- After a call: an error ends the loop.
  called :
      S × Option Error → (S → Result Panic (S × Option Error)) → Result Panic (S × Option Error)
  called (s, some e) go = ok (s, some e)
  called (s, none) go = go s

  -- The loop of `ForEach`, with rounds left.
  pub each_loop :
      Bucket
      → ℕ
      → ℕ
      → ℕ
      → Stack × Option (Bytes × Option Bytes)
      → S
      → Result Panic (S × Option Error)
  unfolding called
  each_loop b pages height zero found s = err diverged
  each_loop b pages height (suc rounds) (refs, none) s = ok (s, none)
  each_loop b pages height (suc rounds) (refs, some (key, value)) s = called (fn key value s) (λ s'.
      next (page_node b) b.tx_open pages height refs >>= λ found.
      each_loop b pages height rounds found s')

  -- `b.ForEach(fn)`; a round for each pair, and for each page in the cursor's loop.
  unfoldable pub for_each : Bucket → ℕ → ℕ → ℕ → S → Result Panic (S × Option Error)
  unfolding each_loop
  for_each b pages height rounds s =
      if not b.tx_open
      then ok (s, some tx_closed)
      else (first (page_node b) b.tx_open pages height b.root >>= λ found.
          each_loop b pages height rounds found s)
