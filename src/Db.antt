-- ===== src/Db.antt =====
-- db.go and bolt_unix.go: the sizes of the file and of the memory map, and the allocation of pages.
-- What the system calls answer is an argument. Sizes are Go ints of 64 bits.
pub mod Sizes
pub mod Allocate
pub mod Growth
use bolt_analysis.Prelude.Results.{Result, ok, err}
use bolt_analysis.Words.{add64, sub64, u64_mod}
use bolt_analysis.Meta.{validate, Meta}
use bolt_analysis.Errors.{
  file_resize_error, file_too_small, map_error, mmap_stat_error, unmap_error, mmap_too_large, Error,
  file_sync_error,
}
use bolt_analysis.Prelude.{
  false, true, zero, leb, suc, ◌&&◌, ◌-◌, ◌/◌, none, some, ◌*◌, ◌+◌, ◌==◌, Bool, Option, [], ltb,
  not, if◌then◌else◌, ◌%◌, ◌^◌, ℕ,
}
use bolt_analysis.Page.{Page}
use bolt_analysis.Panics.{Panic}
use bolt_analysis.Freelist.{Freelist, allocate as allocate_free}

abbrev pub max_mmap_step : ℕ
max_mmap_step = 2 ^ 30

abbrev pub int_mod : ℕ
int_mod = 2 ^ 63

-- The first loop of `mmapSize`, from the exponent `i`, with rounds left: the first power of two that
-- is large enough.
pub double_loop : ℕ → ℕ → ℕ → Option ℕ
double_loop zero i size = none
double_loop (suc k) i size =
    let rest = double_loop k (i + 1) size in if leb size (2 ^ i) then some (2 ^ i) else rest

-- `sz` rounded up to the steps of the memory map
round_step : ℕ → ℕ
round_step sz =
    let remainder = sz % max_mmap_step in
    if ltb 0 remainder then sz + (max_mmap_step - remainder) else sz

-- `sz` rounded up to pages
round_page : ℕ → ℕ → ℕ
round_page page_size sz = if not (sz % page_size == 0) then (sz / page_size + 1) * page_size else sz

step_size : ℕ → ℕ → ℕ → Result Error ℕ
unfolding round_step round_page
step_size max_map_size page_size size =
    let sz = round_page page_size (round_step size) in
    if ltb max_map_size size
    then err mmap_too_large
    else if ltb max_map_size sz
    then ok max_map_size
    else ok sz

-- The size that the doubling found, or else one in steps
doubled_or_step : ℕ → ℕ → ℕ → Option ℕ → Result Error ℕ
unfolding step_size
doubled_or_step max_map_size page_size size none = step_size max_map_size page_size size
doubled_or_step max_map_size page_size size (some sz) = ok sz

-- `db.mmapSize(size)`, with the largest map of the platform
unfoldable pub mmap_size : ℕ → ℕ → ℕ → Result Error ℕ
unfolding double_loop doubled_or_step
mmap_size max_map_size page_size size =
    doubled_or_step max_map_size page_size size (double_loop 16 15 size)

-- The fields that the sizes and the allocation need; `pgid` is the high water mark of the running
-- transaction, `rwtx.meta.pgid`. `file_size` is the field `filesz`, and `disk_size` the size that the
-- file itself has.
pub record Db : Type 0 where
  pub data_size : ℕ
  pub file_size : ℕ
  pub disk_size : ℕ
  pub alloc_size : ℕ
  pub page_size : ℕ
  pub max_map_size : ℕ
  pub no_grow_sync : Bool
  pub read_only : Bool
  pub pgid : ℕ
  pub freelist : Freelist
  pub meta0 : Meta
  pub meta1 : Meta

-- What the system is and its calls answer: the size of the file, whether it can be unmapped and mapped,
-- whether a file of one size can be truncated to another and the size that it has then, whether it can
-- be sync_grown, and the metas that the new map shows.
pub record Os : Type 0 where
  pub stat : Option ℕ
  pub unmaps : Bool
  pub maps : Bool
  pub windows : Bool
  pub resize : ℕ → ℕ → Bool × ℕ
  pub syncs : Bool
  pub map_meta0 : Meta
  pub map_meta1 : Meta

error_of : Error → Option Error → Option Error
error_of e none = none
error_of e (some e') = some e

-- The metas of a new map: the error of the first, if both do not validate.
check_metas : Option Error → Option Error → Option Error
unfolding error_of
check_metas none err1 = none
check_metas (some e) err1 = error_of e err1

-- Replace the map by one of `size` bytes; after the old map is gone, `data_size` is 0.
remap : Os → Db → Result Error ℕ → Option Error × Db
unfolding check_metas
remap os db (err e) = (some e, db)
remap os db (ok size) =
    let mapped : Db = record db { data_size = size; meta0 = os.map_meta0; meta1 = os.map_meta1 } in
    if not os.unmaps
    then (some unmap_error, record db { data_size = 0 })
    else if not os.maps
    then (some map_error, record db { data_size = 0 })
    else (check_metas (validate os.map_meta0) (validate os.map_meta1), mapped)

-- `db.mmap(minsz)`: the error, if there is one
unfoldable pub mmap : Os → ℕ → Db → Option Error × Db
unfolding remap
mmap os minsz db = elim os.stat [
  | none ↦ (some mmap_stat_error, db)
  | some info_size ↦
      if ltb info_size (db.page_size * 2)
      then (some file_too_small, db)
      else remap os db (
          mmap_size db.max_map_size db.page_size (if ltb info_size minsz then minsz else info_size))
]

-- A page in a new buffer, or in one of the pool, whose buffers `tx.write` clears before it returns them.
abbrev pub new_page : ℕ → ℕ → Page
new_page id count = record {
  id = id;
  flags = 0;
  count = 0;
  overflow = sub64 count 1 % 2 ^ 32;
  words = [];
}

-- A new page at the high water mark, if the map could grow.
bump : ℕ → ℕ → Option Error × Db → Result Panic (Result Error Page) × Db
bump id count (some e, db) = (ok (err e), db)
bump id count (none, db) = (ok (ok (new_page id count)), record db { pgid = add64 db.pgid count })

-- `allocate` after the freelist has answered.
allocate_at : Os → ℕ → Result Panic ℕ × Freelist → Db → Result Panic (Result Error Page) × Db
unfolding bump
allocate_at os count (err e, f) db = (err e, record db { freelist = f })
allocate_at os count (ok id, f) db =
    let db' : Db = record db { freelist = f } in
    let minsz = add64 (add64 db.pgid count) 1 * db.page_size % u64_mod in
    if not (id == 0)
    then (ok (ok (new_page id count)), db')
    else if ltb minsz int_mod && leb db.data_size minsz
    then bump db.pgid count (mmap os minsz db')
    else bump db.pgid count (none, db')

-- `db.allocate(count)`; a product of 2^63 or more is negative as an int.
unfoldable pub allocate : Os → ℕ → Db → Result Panic (Result Error Page) × Db
unfolding allocate_at
allocate os count db = allocate_at os count (allocate_free count db.freelist) db

-- The file is not truncated on Windows.
unfoldable pub truncate : Os → ℕ → Db → Bool × Db
truncate os sz db =
    if os.windows
    then (true, db)
    else ((os.resize db.disk_size sz).0, record db { disk_size = (os.resize db.disk_size sz).1 })

-- The sync after a file was truncated, or not.
unfoldable pub sync_grown : Os → ℕ → Bool × Db → Option Error × Db
sync_grown os sz (false, db) = (some file_resize_error, db)
sync_grown os sz (true, db) =
    if not os.syncs then (some file_sync_error, db) else (none, record db { file_size = sz })

-- The size in steps: that of the map as long as it is small, and then with room to spare.
unfoldable pub grown_size : ℕ → Db → ℕ
grown_size sz db = if ltb db.data_size db.alloc_size then db.data_size else sz + db.alloc_size

-- `db.grow(sz)`
unfoldable pub grow : Os → ℕ → Db → Option Error × Db
unfolding grown_size truncate sync_grown
grow os sz db =
    let sz' = grown_size sz db in
    if leb sz db.file_size
    then (none, db)
    else if not db.no_grow_sync && not db.read_only
    then sync_grown os sz' (truncate os sz' db)
    else (none, record db { file_size = sz' })
