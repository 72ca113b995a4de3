-- ===== src/Freelist.antt =====
-- freelist.go: the pages that can be allocated, and those that were freed but may still be read.
-- A Go map is an association list with one entry for each key (`pending`), in the order in which
-- Go happens to visit it, or a function where the code only looks keys up (`cache`).
pub mod TxMap
pub mod Disk
pub mod Valid
pub mod Runs
pub mod Allocate
pub mod Release
pub mod Free
use bolt_analysis.Prelude.{
  ℕ, zero, suc, ◌+◌, ◌-◌, ◌*◌, Bool, true, false, not, List, [], ◌∷◌, ◌++◌, ◌&&◌, ◌||◌, ltb, leb,
  ◌==◌, if◌then◌else◌, length, get_or, take, drop,
}
use bolt_analysis.Prelude.Results.{Result, ok, err}
use bolt_analysis.Words.{u16_max, add64, sub64}
use bolt_analysis.Panics.{Panic, invalid_allocation, free_meta_page, already_freed}
use bolt_analysis.GoSort.{sort}
use bolt_analysis.Pgids.{merge, mergepgids}
use bolt_analysis.Page.{Page, page_header_size, freelist_page_flag}
use TxMap.{Pending, lookup, assign, delete, pending_ids}

pub record Freelist : Type 0 where
  pub ids : List ℕ
  pub pending : Pending
  pub cache : ℕ → Bool

pub new_freelist : Freelist
new_freelist = record { ids = []; pending = []; cache = λ _. false }

-- `cache[id] = b`; deleting a key is writing `false`, since the map is only read by `cache[id]`.
abbrev pub mark : (ℕ → Bool) → ℕ → Bool → ℕ → Bool
mark cache id b j = if j == id then b else cache j

-- Both loops that write `cache[id] = true` for the ids of a list.
pub mark_all : List ℕ → (ℕ → Bool) → ℕ → Bool
mark_all [] cache = cache
mark_all (id ∷ ids) cache = mark_all ids (mark cache id true)

pub free_count : Freelist → ℕ
free_count f = length f.ids

lengths : Pending → ℕ
lengths [] = 0
lengths ((t, ids) ∷ m) = length ids + lengths m

pub pending_count : Freelist → ℕ
unfolding lengths
pending_count f = lengths f.pending

unfoldable pub count : Freelist → ℕ
unfolding free_count pending_count
count f = free_count f + pending_count f

-- `f.size()`: the bytes of the freelist's page. `unsafe.Sizeof(pgid(0))` is 8.
unfoldable pub size : Freelist → ℕ
unfolding count
size f = let n = count f in page_header_size + 8 * (if leb u16_max n then n + 1 else n)

-- `f.copyall(dst)`: what `dst` holds afterwards.
unfoldable pub copyall : Freelist → List ℕ → Result Panic (List ℕ)
copyall f dst = mergepgids dst f.ids (sort (pending_ids f.pending))

-- What the loop of `allocate` meets.
pub data Scan : Type 0 where
  nothing : Scan
  found : ℕ → ℕ → Scan
  invalid : ℕ → Scan

-- The loop of `allocate` over `f.ids` from index `i`, with `initial` and `previd`.
pub scan : ℕ → ℕ → ℕ → ℕ → List ℕ → Scan
scan n i initial previd [] = nothing
scan n i initial previd (id ∷ rest) =
    let initial' = if previd == 0 || not (sub64 id previd == 1) then id else initial in
    let later = scan n (i + 1) initial' id rest in
    if leb id 1
    then invalid id
    else if add64 (sub64 id initial') 1 == n
    then found i initial'
    else later

-- `for i := 0; i < n; i++ { delete(f.cache, initial+i) }`
pub unmark_run : ℕ → ℕ → (ℕ → Bool) → ℕ → Bool
unmark_run zero id cache = cache
unmark_run (suc n) id cache = unmark_run n (add64 id 1) (mark cache id false)

take_found : ℕ → Scan → Freelist → Result Panic ℕ × Freelist
unfolding unmark_run
take_found n nothing f = (ok 0, f)
take_found n (invalid id) f = (err (invalid_allocation id), f)
take_found n (found i initial) f = (
  ok initial,
  record f {
    ids = if i + 1 == n then drop (i + 1) f.ids else take (i + 1 - n) f.ids ++ drop (i + 1) f.ids;
    cache = unmark_run n initial f.cache;
  },
)

-- `f.allocate(n)`: the first page of a run of `n` free pages, or 0.
unfoldable pub allocate : ℕ → Freelist → Result Panic ℕ × Freelist
unfolding scan take_found
allocate n f = if length f.ids == 0 then (ok 0, f) else take_found n (scan n 0 0 0 f.ids) f

-- The loop of `free`: rounds left, the page id, the transaction's ids and the cache so far.
pub free_loop : ℕ → ℕ → List ℕ → (ℕ → Bool) → Result Panic (List ℕ) × (ℕ → Bool)
free_loop zero id ids cache = (ok ids, cache)
free_loop (suc n) id ids cache =
    let rest = free_loop n (add64 id 1) (ids ++ id ∷ []) (mark cache id true) in
    if cache id then (err (already_freed id), cache) else rest

assign_freed :
    ℕ → Freelist → Result Panic (List ℕ) × (ℕ → Bool) → Result Panic (Unit {0}) × Freelist
assign_freed txid f (ok ids, cache) =
    (ok tt, record f { pending = assign txid ids f.pending; cache = cache })
assign_freed txid f (err e, cache) = (err e, record f { cache = cache })

-- `f.free(txid, p)`. The loop runs for the ids from `p.id` up to `p.id + p.overflow`. When it panics,
-- the cache keeps what it has written so far.
unfoldable pub free : ℕ → Page → Freelist → Result Panic (Unit {0}) × Freelist
unfolding free_loop assign_freed
free txid p f =
    if leb p.id 1
    then (err (free_meta_page p.id), f)
    else assign_freed txid f
        (free_loop (add64 p.id p.overflow + 1 - p.id) p.id (lookup txid f.pending) f.cache)

-- The entries that `release` moves, and those that stay.
pub released : ℕ → Pending → List ℕ
released txid [] = []
released txid ((t, ids) ∷ m) =
    let rest = released txid m in if leb t txid then ids ++ rest else rest

pub kept : ℕ → Pending → Pending
kept txid [] = []
kept txid ((t, ids) ∷ m) = let rest = kept txid m in if leb t txid then rest else (t, ids) ∷ rest

with_ids : Freelist → Result Panic (List ℕ) → Result Panic (Unit {0}) × Freelist
with_ids f (ok ids) = (ok tt, record f { ids = ids })
with_ids f (err e) = (err e, f)

-- `f.release(txid)`
unfoldable pub release : ℕ → Freelist → Result Panic (Unit {0}) × Freelist
unfolding released kept with_ids
release txid f =
    with_ids (record f { pending = kept txid f.pending })
      (merge f.ids (sort (released txid f.pending)))

-- `for _, id := range ids { delete(f.cache, id) }`
pub unmark_all : List ℕ → (ℕ → Bool) → ℕ → Bool
unmark_all [] cache = cache
unmark_all (id ∷ ids) cache = unmark_all ids (mark cache id false)

-- `f.rollback(txid)`
unfoldable pub rollback : ℕ → Freelist → Freelist
unfolding unmark_all
rollback txid f = record f {
  pending = delete txid f.pending;
  cache = unmark_all (lookup txid f.pending) f.cache;
}

-- `f.freed(pgid)`
pub freed : ℕ → Freelist → Bool
freed id f = f.cache id
