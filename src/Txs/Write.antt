-- ===== src/Txs/Write.antt =====
-- tx.go: `write`, which writes the dirty pages of a transaction to the file. What the system answers to
-- `writeAt` and `fdatasync` is an argument.
pub mod Chunks
pub mod Pages
use bolt_analysis.Prelude.{
  ◌++◌, ℕ, zero, suc, ◌+◌, ◌*◌, ◌-◌, ◌/◌, Bool, true, false, not, List, [], ◌∷◌, Option, none, some,
  take, drop, map, ltb, leb, ◌==◌, if◌then◌else◌,
}
use bolt_analysis.Prelude.Results.{Result, ok, err, ◌>>=◌}
use bolt_analysis.Panics.{Panic, diverged}
use bolt_analysis.Errors.{Error}
use bolt_analysis.Memory.{max_alloc_size}

-- The byte at each offset.
abbrev pub File : Type 0
File = ℕ → ℕ

-- The answers to the n-th write, of some bytes to an offset, and to a sync after n writes.
pub record FileOps : Type 0 where
  pub write_at : ℕ → List ℕ → ℕ → File → File × Option Error
  pub sync : ℕ → File → Option Error

-- A page in memory with all bytes of it and of the pages it runs over into, from its header on.
pub record DirtyPage : Type 0 where
  pub id : ℕ
  pub overflow : ℕ
  pub bytes : List ℕ

-- What `write` sees of a transaction and its database: `syncs` is `!NoSync || IgnoreNoSync`, and
-- `calls` counts the writes that were tried.
pub record Writer : Type 0 where
  pub pages : List DirtyPage
  pub writes : ℕ
  pub calls : ℕ
  pub file : File
  pub page_size : ℕ
  pub syncs : Bool
  pub pool : List (List ℕ)

-- `sort.Sort(pages)`
unfoldable pub insert_page : DirtyPage → List DirtyPage → List DirtyPage
insert_page p [] = p ∷ []
insert_page p (q ∷ qs) =
    let rest = insert_page p qs in if leb p.id q.id then p ∷ q ∷ qs else q ∷ rest

unfoldable pub sort_pages : List DirtyPage → List DirtyPage
unfolding insert_page
sort_pages [] = []
sort_pages (p ∷ ps) = insert_page p (sort_pages ps)

-- `maxAllocSize - 1`
abbrev pub chunk_size : ℕ
chunk_size = max_alloc_size - 1

unfoldable pub page_bytes : ℕ → DirtyPage → ℕ
page_bytes page_size p = (p.overflow + 1) * page_size

module _ (ops : FileOps) where
  -- One call of `writeAt`; the statistics count it if it succeeds.
  unfoldable pub write_chunk : List ℕ → ℕ → Writer → Option Error × Writer
  write_chunk buf offset w =
      let (file, e) = ops.write_at w.calls buf offset w.file in
      let w' : Writer = record w { file = file; calls = w.calls + 1 } in
      elim e [ none ↦ (none, record w' { writes = w.writes + 1 }) | some x ↦ (some x, w') ]

  -- What the loops do after a call: they stop at an error.
  unfoldable pub unless_error :
      Option Error × Writer
      → (Writer → Result Panic (Option Error × Writer))
      → Result Panic (Option Error × Writer)
  unless_error (none, w) go = go w
  unless_error (some e, w) go = ok (some e, w)

  -- The inner loop: `size` bytes from `ptr` on, with rounds left.
  unfoldable pub write_chunks : ℕ → List ℕ → ℕ → ℕ → Writer → Result Panic (Option Error × Writer)
  unfolding write_chunk unless_error
  write_chunks zero ptr size offset w = err diverged
  write_chunks (suc fuel) ptr size offset w =
      let sz = if ltb chunk_size size then chunk_size else size in
      let next = write_chunks fuel (drop sz ptr) (size - sz) (offset + sz) in
      unless_error (write_chunk (take sz ptr) offset w)
        λ w'. if size - sz == 0 then ok (none, w') else next w'

  -- The outer loop.
  unfoldable pub write_pages : List DirtyPage → Writer → Result Panic (Option Error × Writer)
  unfolding write_chunks unless_error page_bytes
  write_pages [] w = ok (none, w)
  write_pages (p ∷ ps) w =
      let size = page_bytes w.page_size p in
      write_chunks (size / chunk_size + 1) p.bytes size (p.id * w.page_size) w >>= λ r.
      unless_error r (write_pages ps)

  -- `fdatasync(tx.db)`
  unfoldable pub synced : Writer → Option Error
  synced w = if w.syncs then ops.sync w.calls w.file else none

  -- A buffer of one page, cleared for the pool; longer ones are dropped.
  unfoldable pub pooled : ℕ → List DirtyPage → List (List ℕ)
  pooled page_size [] = []
  pooled page_size (p ∷ ps) =
      let rest = pooled page_size ps in
      if p.overflow == 0 then map (λ b. 0) (take page_size p.bytes) ∷ rest else rest

  -- After the sync, small pages go to the pool.
  unfoldable pub finished : List DirtyPage → Writer → Option Error → Option Error × Writer
  unfolding pooled
  finished pages w none = (none, record w { pool = w.pool ++ pooled w.page_size pages })
  finished pages w (some e) = (some e, w)

  -- `tx.write()`
  unfoldable pub write : Writer → Result Panic (Option Error × Writer)
  unfolding sort_pages write_pages unless_error synced finished
  write w =
      let pages = sort_pages w.pages in
      write_pages pages (record w { pages = [] }) >>= λ r.
      unless_error r λ w'. ok (finished pages w' (synced w'))
