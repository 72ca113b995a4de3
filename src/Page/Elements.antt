-- ===== src/Page/Elements.antt =====
-- page.go: the elements of a branch page and of a leaf page, in the bytes behind the page header.
use bolt_analysis.Prelude.{ℕ, ◌+◌, ◌*◌, ◌%◌, ◌^◌, List, drop}
use bolt_analysis.Prelude.Results.{Result}
use bolt_analysis.Panics.{Panic}
use bolt_analysis.Bytes.{Bytes}
use bolt_analysis.Memory.{field_at, slice}

-- A page of the tree: its header, and all bytes from `ptr` on.
pub record BytesPage : Type 0 where
  pub id : ℕ
  pub flags : ℕ
  pub count : ℕ
  pub overflow : ℕ
  pub bytes : List ℕ

pub record LeafPageElement : Type 0 where
  pub flags : ℕ
  pub pos : ℕ
  pub ksize : ℕ
  pub vsize : ℕ

pub record BranchPageElement : Type 0 where
  pub pos : ℕ
  pub ksize : ℕ
  pub pgid : ℕ

-- Where `leafPageElement(index)` and `branchPageElement(index)` point to: both are 16 bytes long.
unfoldable pub element_memory : ℕ → List ℕ → List ℕ
element_memory index bytes = drop (16 * index) bytes

unfoldable pub leaf_element : List ℕ → LeafPageElement
leaf_element memory = record {
  flags = field_at 0 4 memory;
  pos = field_at 4 4 memory;
  ksize = field_at 8 4 memory;
  vsize = field_at 12 4 memory;
}

unfoldable pub branch_element : List ℕ → BranchPageElement
branch_element memory = record {
  pos = field_at 0 4 memory;
  ksize = field_at 4 4 memory;
  pgid = field_at 8 8 memory;
}

-- `n.key()` of a leaf element
unfoldable pub leaf_key : List ℕ → Result Panic Bytes
unfolding leaf_element
leaf_key memory = let n = leaf_element memory in slice n.pos n.ksize memory

-- `n.value()` of a leaf element
unfoldable pub leaf_value : List ℕ → Result Panic Bytes
unfolding leaf_element
leaf_value memory = let n = leaf_element memory in slice ((n.pos + n.ksize) % 2 ^ 32) n.vsize memory

-- `n.key()` of a branch element
unfoldable pub branch_key : List ℕ → Result Panic Bytes
unfolding branch_element
branch_key memory = let n = branch_element memory in slice n.pos n.ksize memory
