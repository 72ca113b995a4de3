-- ===== src/Tests/Txs.antt =====
-- Runs of the open transactions.
use bolt_analysis.Prelude.{
  ℕ, ◌+◌, ◌≡◌, refl, arith, true, false, none, some, [], ◌∷◌, bit, ◌&&◌, ◌==◌, ◌||◌,
}
use bolt_analysis.Prelude.Results.{ok}
use bolt_analysis.Errors.{invalid}
use bolt_analysis.Page.{Page}
use bolt_analysis.Stats.{TxStats}
use bolt_analysis.Meta.{Meta, current_meta, validate}
use bolt_analysis.Freelist.{Freelist, count, copyall}
use bolt_analysis.Freelist.TxMap.{delete}
use bolt_analysis.Freelist.Valid.{IsValid}
use bolt_analysis.Freelist.Disk.{write}
use bolt_analysis.Txs.{Tx, Txs, begin_rw_tx, remove_tx, is_open, add_reader}
use bolt_analysis.Txs.Snapshots.{IsStarted, begin_rw_tx_lem}
use bolt_analysis.Txs.Removal.{count_tx, remove_tx_lem}
use bolt_analysis.Txs.Close.{view, rollback}
use bolt_analysis.Txs.Views.{IsClosed, IsRestored, writer, view-IsClosed, rollback-IsRestored}

abbrev meta_at : ℕ → Meta
meta_at t = record {
  magic = 0xED0CDAED;
  version = 2;
  page_size = 4096;
  flags = 0;
  root = 3;
  sequence = 0;
  freelist = 2;
  pgid = 40;
  txid = t;
  checksum = 0;
}

-- Pages 5 and 6 were freed by transaction 9, and page 8 by transaction 11.
abbrev pending_pages : Freelist
pending_pages = record {
  ids = 4 ∷ [];
  pending = (9, 5 ∷ 6 ∷ []) ∷ (11, 8 ∷ []) ∷ [];
  cache = λ id. id == 4 || id == 5 || id == 6 || id == 8;
}

pending_pages-IsValid : IsValid pending_pages
pending_pages-IsValid = record {
  ascending = omega arith;
  bounded = λ id c. ground arith;
  unique = ((refl, tt), (tt, tt));
  metas = (refl, refl);
  counted = λ id. ground arith;
}

abbrev no_stats : TxStats
no_stats = record {
  page_count = 0;
  page_alloc = 0;
  cursor_count = 0;
  node_count = 0;
  node_deref = 0;
  rebalance = 0;
  rebalance_time = 0;
  split = 0;
  spill = 0;
  spill_time = 0;
  write = 0;
  write_time = 0;
}

-- The freelist as it was written, with the pending pages.
abbrev freelist_page : Page
freelist_page = record { id = 2; flags = 0x10; count = 4; overflow = 0; words = 4 ∷ 5 ∷ 6 ∷ 8 ∷ [] }

-- Two readers, at the transactions 10 and 11.
abbrev two_readers : Txs
two_readers = record {
  opened = true;
  read_only = false;
  rwlock = false;
  mmap_readers = 2;
  meta0 = meta_at 12;
  meta1 = meta_at 11;
  rwtx = none;
  txs =
      record { address = 1; writable = false; meta = meta_at 10 }
      ∷ record { address = 2; writable = false; meta = meta_at 11 }
      ∷ [];
  freelist = pending_pages;
  tx_count = 2;
  open_tx_count = 2;
  free_page_n = 0;
  pending_page_n = 0;
  free_alloc = 0;
  freelist_inuse = 0;
  tx_stats = no_stats;
  page_size = 4096;
  disk = λ id. freelist_page;
}

two_readers_current : current_meta two_readers.meta0 two_readers.meta1 ≡ ok (meta_at 12)
unfolding current_meta validate
two_readers_current = refl

begin_rw_tx_lem_example :
    (t : Tx) × (db' : Txs) × (begin_rw_tx 3 two_readers ≡ (ok (ok t), db'))
    × IsStarted two_readers (meta_at 12) t db'
begin_rw_tx_lem_example =
    begin_rw_tx_lem 3 two_readers (meta_at 12) refl refl two_readers_current pending_pages-IsValid

remove_tx_lem_example :
    count_tx 2 (remove_tx 1 no_stats two_readers).txs + bit (2 == 1 && is_open 1 two_readers.txs)
    ≡ count_tx 2 two_readers.txs
remove_tx_lem_example = remove_tx_lem 1 2 no_stats two_readers

view-IsClosed_example :
    IsClosed two_readers
      (add_reader 3 (ok (meta_at 12)) two_readers).1
      no_stats
      (ok (some invalid))
      (view 3 (λ t db. (ok (some invalid), no_stats, db)) two_readers)
unfolding add_reader is_open
view-IsClosed_example =
    view-IsClosed 3 (λ t db. (ok (some invalid), no_stats, db)) two_readers (meta_at 12) refl
      two_readers_current refl (ok (some invalid)) no_stats
      (add_reader 3 (ok (meta_at 12)) two_readers).1 refl refl refl

-- The writer has freed page 20 and has taken page 4.
abbrev changed : Txs
changed = record two_readers {
  freelist = record {
    ids = [];
    pending = (9, 5 ∷ 6 ∷ []) ∷ (11, 8 ∷ []) ∷ (13, 20 ∷ []) ∷ [];
    cache = λ id. id == 5 || id == 6 || id == 8 || id == 20;
  };
}

pages_written : write pending_pages freelist_page ≡ ok freelist_page
unfolding write count copyall bolt_analysis.Pgids.mergepgids bolt_analysis.GoSort.sort
    bolt_analysis.GoSort.search
pages_written = refl

rollback-IsRestored_example :
    IsRestored pending_pages (rollback (writer 3 (meta_at 13) false no_stats) changed)
unfolding count delete
rollback-IsRestored_example =
    rollback-IsRestored pending_pages pending_pages-IsValid freelist_page freelist_page 3
      (meta_at 13) (meta_at 12) false no_stats changed (omega arith) (omega arith) pages_written
      two_readers_current refl refl
