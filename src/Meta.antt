-- ===== src/Meta.antt =====
-- db.go: the meta page, its checksum and validation, and the choice between the two copies.
pub mod Choice
use bolt_analysis.Prelude.{
  ℕ, zero, suc, ◌+◌, ◌*◌, ◌/◌, ◌%◌, Bool, true, false, not, List, [], ◌∷◌, ◌++◌, ◌&&◌, ◌||◌, ltb,
  leb, ◌==◌, if◌then◌else◌, Option, none, some,
}
use Prim.Native.Nat.{bit_or, bit_xor}
use bolt_analysis.Prelude.Results.{Result, ok, err}
use bolt_analysis.Bytes.{Bytes}
use bolt_analysis.Words.{u64_mod}
use bolt_analysis.Errors.{Error, invalid, version_mismatch, checksum_error}
use bolt_analysis.Panics.{
  Panic, root_above_high_water_mark, freelist_above_high_water_mark, invalid_meta_pages,
}
use bolt_analysis.Page.{meta_page_flag}

abbrev pub magic : ℕ
magic = 0xED0CDAED

abbrev pub version : ℕ
version = 2

-- `root` and `sequence` are the fields of the root bucket's header.
pub record Meta : Type 0 where
  pub magic : ℕ
  pub version : ℕ
  pub page_size : ℕ
  pub flags : ℕ
  pub root : ℕ
  pub sequence : ℕ
  pub freelist : ℕ
  pub pgid : ℕ
  pub txid : ℕ
  pub checksum : ℕ

-- The `w` bytes of a number, the lowest first, as they lie in memory.
pub le_bytes : ℕ → ℕ → Bytes
le_bytes zero n = []
le_bytes (suc w) n = n % 256 ∷ le_bytes w (n / 256)

-- The memory of a meta up to its checksum.
pub meta_bytes : Meta → Bytes
unfolding le_bytes
meta_bytes m =
    le_bytes 4 m.magic
    ++ (le_bytes 4 m.version
        ++ (le_bytes 4 m.page_size
            ++ (le_bytes 4 m.flags
                ++ (le_bytes 8 m.root
                    ++ (le_bytes 8 m.sequence
                        ++ (le_bytes 8 m.freelist ++ (le_bytes 8 m.pgid ++ le_bytes 8 m.txid)))))))

-- `fnv.New64a` of Go's standard library
pub fnv64a : ℕ → Bytes → ℕ
fnv64a h [] = h
fnv64a h (b ∷ bs) = fnv64a (bit_xor h b * 1099511628211 % u64_mod) bs

-- `m.sum64()`
unfoldable pub sum64 : Meta → ℕ
unfolding meta_bytes fnv64a
sum64 m = fnv64a 14695981039346656037 (meta_bytes m)

-- `m.validate()`: the error, if there is one
unfoldable pub validate : Meta → Option Error
validate m =
    if not (m.magic == magic)
    then some invalid
    else if not (m.version == version)
    then some version_mismatch
    else if not (m.checksum == 0) && not (m.checksum == sum64 m)
    then some checksum_error
    else none

-- A meta page: the header fields that `m.write(p)` sets, and the meta behind the header.
pub record MetaPage : Type 0 where
  pub id : ℕ
  pub flags : ℕ
  pub content : Meta

-- `m.write(p)`: the page, and `m`, whose checksum it sets.
unfoldable pub write : Meta → MetaPage → Result Panic (Meta × MetaPage)
write m p =
    let summed : Meta = record m { checksum = sum64 m } in
    let page : MetaPage = record {
      id = m.txid % 2;
      flags = bit_or p.flags meta_page_flag;
      content = summed;
    } in
    if leb m.pgid m.root
    then err (root_above_high_water_mark m.root m.pgid)
    else if leb m.pgid m.freelist
    then err (freelist_above_high_water_mark m.freelist m.pgid)
    else ok (summed, page)

is_valid : Option Error → Bool
is_valid none = true
is_valid (some e) = false

-- `db.meta()`, from the two meta pages.
unfoldable pub current_meta : Meta → Meta → Result Panic Meta
unfolding is_valid
current_meta meta0 meta1 =
    let newer = ltb meta0.txid meta1.txid in
    let a = if newer then meta1 else meta0 in
    let b = if newer then meta0 else meta1 in
    if is_valid (validate a)
    then ok a
    else if is_valid (validate b)
    then ok b
    else err invalid_meta_pages
