-- ===== src/Txs/Close.antt =====
-- tx.go and db.go: `close`, `rollback` and `Rollback` of a transaction, and `DB.View`. What `page(id)`
-- finds in the map is the field `disk`.
use bolt_analysis.Prelude.{
  ℕ, ◌+◌, ◌*◌, ◌%◌, ◌^◌, Bool, true, false, not, Option, none, some, if◌then◌else◌,
}
use bolt_analysis.Prelude.Results.{Result, ok, err}
use bolt_analysis.Panics.{Panic, managed_rollback}
use bolt_analysis.Errors.{Error, tx_closed}
use bolt_analysis.Stats.{TxStats, add}
use bolt_analysis.Meta.{Meta, current_meta}
use bolt_analysis.Freelist.{Freelist, free_count, pending_count, size}
use bolt_analysis.Freelist as F
use bolt_analysis.Freelist.Disk.{reload}
use bolt_analysis.Txs.{Tx, Txs, begin_tx, remove_tx}

-- A transaction in the hands of its user; `opened` says that its `db` is not nil.
pub record Handle : Type 0 where
  pub tx : Tx
  pub managed : Bool
  pub opened : Bool
  pub stats : TxStats

-- The end of a writer.
unfoldable pub close_writer : TxStats → Txs → Txs
close_writer stats db =
    let free = free_count db.freelist in
    let pending = pending_count db.freelist in
    record db {
      rwtx = none;
      rwlock = false;
      free_page_n = free;
      pending_page_n = pending;
      free_alloc = ((free + pending) * db.page_size) % 2 ^ 64;
      freelist_inuse = size db.freelist;
      tx_stats = add db.tx_stats stats;
    }

-- `tx.close()`
unfoldable pub close : Handle → Txs → Handle × Txs
unfolding close_writer
close h db = if not h.opened then (h, db) else (
  record h { opened = false },
  if h.tx.writable then close_writer h.stats db else remove_tx h.tx.address h.stats db,
)

unfoldable pub closed_at : Handle → Txs → Result Panic Meta → Result Panic (Unit {0}) × Handle × Txs
unfolding close
closed_at h db (ok m) =
    let (h', db') = close h (record db { freelist = reload (db.disk m.freelist) db.freelist }) in
    (ok tt, h', db')
closed_at h db (err p) = (err p, h, db)

-- `tx.rollback()`
unfoldable pub rollback : Handle → Txs → Result Panic (Unit {0}) × Handle × Txs
unfolding closed_at close
rollback h db =
    if not h.opened
    then (ok tt, h, db)
    else if h.tx.writable
    then closed_at h (record db { freelist = F.rollback h.tx.meta.txid db.freelist })
        (current_meta db.meta0 db.meta1)
    else (let (h', db') = close h db in (ok tt, h', db'))

unfoldable pub without_error :
    Result Panic (Unit {0}) × Handle × Txs → Result Panic (Option Error) × Handle × Txs
without_error (ok u, h, db) = (ok none, h, db)
without_error (err p, h, db) = (err p, h, db)

-- `tx.Rollback()`
unfoldable pub user_rollback : Handle → Txs → Result Panic (Option Error) × Handle × Txs
unfolding without_error
user_rollback h db =
    if h.managed
    then (err managed_rollback, h, db)
    else if not h.opened
    then (ok (some tx_closed), h, db)
    else without_error (rollback h db)

-- What the function of the user does with the transaction: its result, and the counters of the
-- transaction and the database afterwards.
abbrev pub Body : Type 0
Body = Tx → Txs → Result Panic (Option Error) × TxStats × Txs

-- A panic of a deferred function takes the place of the result.
unfoldable pub unless_panics :
    Result Panic (Unit {0}) → Result Panic (Option Error) → Result Panic (Option Error)
unless_panics (ok u) r = r
unless_panics (err p) r = err p

-- The deferred function of `View`, which runs when it returns or panics with `r`.
unfoldable pub deferred :
    Result Panic (Option Error) → Handle → Txs → Result Panic (Option Error) × Txs
unfolding unless_panics
deferred r h db = let (q, h', db') = rollback h db in (unless_panics q r, db')

-- After an error of the function, what `Rollback` returns is dropped.
unfoldable pub unless_panic : Error → Result Panic (Option Error) → Result Panic (Option Error)
unless_panic e (ok r) = ok (some e)
unless_panic e (err p) = err p

unfoldable pub ended :
    Tx → Result Panic (Option Error) × TxStats × Txs → Result Panic (Option Error) × Txs
unfolding deferred unless_panic
ended t (err p, stats, db) =
    deferred (err p) record { tx = t; managed = true; opened = true; stats = stats } db
ended t (ok (some e), stats, db) =
    let (r, h, db') =
      user_rollback record { tx = t; managed = false; opened = true; stats = stats } db in
    deferred (unless_panic e r) h db'
ended t (ok none, stats, db) =
    let (r, h, db') =
      user_rollback record { tx = t; managed = false; opened = true; stats = stats } db in
    deferred r h db'

unfoldable pub begun :
    Body → Result Panic (Result Error Tx) × Txs → Result Panic (Option Error) × Txs
unfolding ended
begun fn (err p, db) = (err p, db)
begun fn (ok (err e), db) = (ok (some e), db)
begun fn (ok (ok t), db) = ended t (fn t db)

-- `db.View(fn)`
unfoldable pub view : ℕ → Body → Txs → Result Panic (Option Error) × Txs
unfolding begun
view address fn db = begun fn (begin_tx address db)
