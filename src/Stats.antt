-- ===== src/Stats.antt =====
-- tx.go and db.go: the counters of a transaction and of the database. A counter is a Go int of 64
-- bits, kept as its bits: the number modulo 2^64.
use bolt_analysis.Prelude.{ℕ, ◌<◌, ◌≡◌, refl, arith, Option, none, some}
use bolt_analysis.Words.{add64, sub64, u64_mod}

pub record TxStats : Type 0 where
  pub page_count : ℕ
  pub page_alloc : ℕ
  pub cursor_count : ℕ
  pub node_count : ℕ
  pub node_deref : ℕ
  pub rebalance : ℕ
  pub rebalance_time : ℕ
  pub split : ℕ
  pub spill : ℕ
  pub spill_time : ℕ
  pub write : ℕ
  pub write_time : ℕ

-- `s.add(other)`
unfoldable pub add : TxStats → TxStats → TxStats
add s other = record {
  page_count = add64 s.page_count other.page_count;
  page_alloc = add64 s.page_alloc other.page_alloc;
  cursor_count = add64 s.cursor_count other.cursor_count;
  node_count = add64 s.node_count other.node_count;
  node_deref = add64 s.node_deref other.node_deref;
  rebalance = add64 s.rebalance other.rebalance;
  rebalance_time = add64 s.rebalance_time other.rebalance_time;
  split = add64 s.split other.split;
  spill = add64 s.spill other.spill;
  spill_time = add64 s.spill_time other.spill_time;
  write = add64 s.write other.write;
  write_time = add64 s.write_time other.write_time;
}

-- `s.Sub(other)`
unfoldable pub sub : TxStats → TxStats → TxStats
sub s other = record {
  page_count = sub64 s.page_count other.page_count;
  page_alloc = sub64 s.page_alloc other.page_alloc;
  cursor_count = sub64 s.cursor_count other.cursor_count;
  node_count = sub64 s.node_count other.node_count;
  node_deref = sub64 s.node_deref other.node_deref;
  rebalance = sub64 s.rebalance other.rebalance;
  rebalance_time = sub64 s.rebalance_time other.rebalance_time;
  split = sub64 s.split other.split;
  spill = sub64 s.spill other.spill;
  spill_time = sub64 s.spill_time other.spill_time;
  write = sub64 s.write other.write;
  write_time = sub64 s.write_time other.write_time;
}

pub record Stats : Type 0 where
  pub free_page_n : ℕ
  pub pending_page_n : ℕ
  pub free_alloc : ℕ
  pub freelist_inuse : ℕ
  pub tx_n : ℕ
  pub open_tx_n : ℕ
  pub tx_stats : TxStats

-- `s.Sub(other)` of the database's counters; the number of open transactions is 0 in a difference.
unfoldable pub sub_stats : Stats → Option Stats → Stats
sub_stats s none = s
sub_stats s (some other) = record {
  free_page_n = s.free_page_n;
  pending_page_n = s.pending_page_n;
  free_alloc = s.free_alloc;
  freelist_inuse = s.freelist_inuse;
  tx_n = sub64 s.tx_n other.tx_n;
  open_tx_n = 0;
  tx_stats = sub s.tx_stats other.tx_stats;
}

-- `s.add(other)` of the database's counters
unfoldable pub add_stats : Stats → Stats → Stats
add_stats s other = record s { tx_stats = add s.tx_stats other.tx_stats }

-- Counters of 64 bits.
pub record AreWords (s : TxStats) : Type 0 where
  pub page_count_bound : s.page_count < u64_mod
  pub page_alloc_bound : s.page_alloc < u64_mod
  pub cursor_count_bound : s.cursor_count < u64_mod
  pub node_count_bound : s.node_count < u64_mod
  pub node_deref_bound : s.node_deref < u64_mod
  pub rebalance_bound : s.rebalance < u64_mod
  pub rebalance_time_bound : s.rebalance_time < u64_mod
  pub split_bound : s.split < u64_mod
  pub spill_bound : s.spill < u64_mod
  pub spill_time_bound : s.spill_time < u64_mod
  pub write_bound : s.write < u64_mod
  pub write_time_bound : s.write_time < u64_mod

sub64-add64 : (a b : ℕ) → a < u64_mod → b < u64_mod → sub64 (add64 a b) a ≡ b
sub64-add64 a b ha hb = omega arith

-- `Sub` takes back what `add` added: the difference between the counters after and before the work
-- of a transaction is that transaction's counters, also where the sums wrap around.
pub sub-add : (s other : TxStats) → AreWords s → AreWords other → sub (add s other) s ≡ other
unfolding sub add
sub-add s other h k =
    rw
      (
        sub64-add64 s.page_count other.page_count h.page_count_bound k.page_count_bound,
        sub64-add64 s.page_alloc other.page_alloc h.page_alloc_bound k.page_alloc_bound,
        sub64-add64 s.cursor_count other.cursor_count h.cursor_count_bound k.cursor_count_bound,
        sub64-add64 s.node_count other.node_count h.node_count_bound k.node_count_bound,
        sub64-add64 s.node_deref other.node_deref h.node_deref_bound k.node_deref_bound,
        sub64-add64 s.rebalance other.rebalance h.rebalance_bound k.rebalance_bound,
        sub64-add64 s.rebalance_time other.rebalance_time h.rebalance_time_bound
            k.rebalance_time_bound,
        sub64-add64 s.split other.split h.split_bound k.split_bound,
        sub64-add64 s.spill other.spill h.spill_bound k.spill_bound,
        sub64-add64 s.spill_time other.spill_time h.spill_time_bound k.spill_time_bound,
        sub64-add64 s.write other.write h.write_bound k.write_bound,
        sub64-add64 s.write_time other.write_time h.write_time_bound k.write_time_bound,
      )
      refl

-- The counters of the database after a transaction's counters were added to them, less those before:
-- they are the transaction's.
pub sub_stats-add_stats :
    (s other : Stats)
    → AreWords s.tx_stats
    → AreWords other.tx_stats
    → (sub_stats (add_stats s other) (some s)).tx_stats ≡ other.tx_stats
unfolding sub_stats add_stats
sub_stats-add_stats s other h k = sub-add s.tx_stats other.tx_stats h k
