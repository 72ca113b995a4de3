-- ===== src/Txs.antt =====
-- db.go and tx.go: the transactions that are open. A transaction is known by its address, a number.
-- Each operation is one step, which runs with the locks that it takes: `rwlock` is the writer's lock,
-- and `mmap_readers` counts the read locks on the map.
pub mod Snapshots
pub mod Removal
pub mod Close
pub mod Views
pub mod Write
use bolt_analysis.Prelude.{
  ℕ, zero, suc, ◌+◌, ◌-◌, ◌<◌, Bool, true, false, not, List, [], ◌∷◌, ◌++◌, Option, none, some, ltb,
  leb, ◌==◌, ◌||◌, if◌then◌else◌, length, take,
}
use bolt_analysis.Prelude.Results.{Result, ok, err}
use bolt_analysis.Panics.{Panic}
use bolt_analysis.Words.{add64, u64_mod}
use bolt_analysis.Page.{Page}
use bolt_analysis.Stats.{TxStats, add}
use bolt_analysis.Errors.{Error, database_not_open, database_read_only}
use bolt_analysis.Meta.{Meta, current_meta}
use bolt_analysis.Freelist.{Freelist, release}

pub record Tx : Type 0 where
  pub address : ℕ
  pub writable : Bool
  pub meta : Meta

pub record Txs : Type 0 where
  pub opened : Bool
  pub read_only : Bool
  pub rwlock : Bool
  pub mmap_readers : ℕ
  pub meta0 : Meta
  pub meta1 : Meta
  pub rwtx : Option Tx
  pub txs : List Tx
  pub freelist : Freelist
  pub tx_count : ℕ
  pub open_tx_count : ℕ
  pub free_page_n : ℕ
  pub pending_page_n : ℕ
  pub free_alloc : ℕ
  pub freelist_inuse : ℕ
  pub tx_stats : TxStats
  pub page_size : ℕ
  pub disk : ℕ → Page

-- What `tx.init(db)` makes of the meta that it copies; the id of a writer is the next one.
abbrev pub new_tx : ℕ → Bool → Meta → Tx
new_tx address writable m = record {
  address = address;
  writable = writable;
  meta = if writable then record m { txid = add64 m.txid 1 } else m;
}

-- A reader of the meta that `init` copies. If `db.meta()` panics, the map stays locked.
unfoldable pub add_reader : ℕ → Result Panic Meta → Txs → Result Panic (Result Error Tx) × Txs
add_reader address (err e) db = (err e, record db { mmap_readers = db.mmap_readers + 1 })
add_reader address (ok m) db = (
  ok (ok (new_tx address false m)),
  record db {
    mmap_readers = db.mmap_readers + 1;
    txs = db.txs ++ new_tx address false m ∷ [];
    tx_count = db.tx_count + 1;
    open_tx_count = length db.txs + 1;
  },
)

-- `db.beginTx()`
unfoldable pub begin_tx : ℕ → Txs → Result Panic (Result Error Tx) × Txs
unfolding add_reader
begin_tx address db =
    if not db.opened
    then (ok (err database_not_open), db)
    else add_reader address (current_meta db.meta0 db.meta1) db

-- The loop over the open readers in `beginRWTx`.
unfoldable pub min_txid : ℕ → List Tx → ℕ
min_txid minid [] = minid
min_txid minid (t ∷ txs) = min_txid (if ltb t.meta.txid minid then t.meta.txid else minid) txs

with_freelist : Tx → Txs → Result Panic (Unit {0}) × Freelist → Result Panic (Result Error Tx) × Txs
with_freelist t db (ok u, f) = (ok (ok t), record db { freelist = f })
with_freelist t db (err e, f) = (err e, record db { freelist = f })

-- A writer of the meta that `init` copies, after the pages that no reader can see are released.
add_writer : ℕ → Result Panic Meta → Txs → Result Panic (Result Error Tx) × Txs
unfolding with_freelist
add_writer address (err e) db = (err e, record db { rwlock = true })
add_writer address (ok m) db =
    let t = new_tx address true m in
    let db' : Txs = record db { rwlock = true; rwtx = some t } in
    let minid = min_txid (u64_mod - 1) db.txs in
    if ltb 0 minid then with_freelist t db' (release (minid - 1) db.freelist) else (ok (ok t), db')

-- `db.beginRWTx()`, once it holds the writer's lock
unfoldable pub begin_rw_tx : ℕ → Txs → Result Panic (Result Error Tx) × Txs
unfolding add_writer
begin_rw_tx address db =
    if db.read_only
    then (ok (err database_read_only), db)
    else if not db.opened
    then (ok (err database_not_open), db)
    else add_writer address (current_meta db.meta0 db.meta1) db

-- `db.txs[i] = db.txs[last]` at the first `i` with the transaction
unfoldable pub fill : ℕ → Tx → List Tx → List Tx
fill address last [] = []
fill address last (t ∷ txs) =
    let rest = fill address last txs in if t.address == address then last ∷ txs else t ∷ rest

unfoldable pub is_open : ℕ → List Tx → Bool
is_open address [] = false
is_open address (t ∷ txs) = t.address == address || is_open address txs

unfoldable pub last_tx : Tx → List Tx → Tx
last_tx t [] = t
last_tx t (t' ∷ txs) = last_tx t' txs

-- The loop of `removeTx`.
unfoldable pub without_tx : ℕ → List Tx → List Tx
unfolding fill is_open last_tx
without_tx address [] = []
without_tx address (t ∷ txs) =
    if is_open address (t ∷ txs)
    then take (length txs) (fill address (last_tx t txs) (t ∷ txs))
    else t ∷ txs

-- `db.removeTx(tx)` of a transaction that holds a read lock and has the counters `stats`
unfoldable pub remove_tx : ℕ → TxStats → Txs → Txs
unfolding without_tx
remove_tx address stats db = record db {
  mmap_readers = db.mmap_readers - 1;
  txs = without_tx address db.txs;
  open_tx_count = length (without_tx address db.txs);
  tx_stats = add db.tx_stats stats;
}
