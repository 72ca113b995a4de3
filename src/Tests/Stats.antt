-- ===== src/Tests/Stats.antt =====
-- Runs of the counters.
use bolt_analysis.Prelude.{◌≡◌, ◌^◌, ◌-◌, arith, some}
use bolt_analysis.Stats.{TxStats, Stats, AreWords, add_stats, sub_stats, sub_stats-add_stats}

-- A counter that the next addition wraps around, beside small ones.
abbrev before : TxStats
before = record {
  page_count = 0;
  page_alloc = 2 ^ 64 - 1;
  cursor_count = 2;
  node_count = 3;
  node_deref = 4;
  rebalance = 5;
  rebalance_time = 6;
  split = 7;
  spill = 8;
  spill_time = 9;
  write = 10;
  write_time = 11;
}

abbrev work : TxStats
work = record {
  page_count = 3;
  page_alloc = 4;
  cursor_count = 5;
  node_count = 6;
  node_deref = 7;
  rebalance = 8;
  rebalance_time = 9;
  split = 10;
  spill = 11;
  spill_time = 12;
  write = 13;
  write_time = 14;
}

before-AreWords : AreWords before
before-AreWords = record {
  page_count_bound = omega arith;
  page_alloc_bound = omega arith;
  cursor_count_bound = omega arith;
  node_count_bound = omega arith;
  node_deref_bound = omega arith;
  rebalance_bound = omega arith;
  rebalance_time_bound = omega arith;
  split_bound = omega arith;
  spill_bound = omega arith;
  spill_time_bound = omega arith;
  write_bound = omega arith;
  write_time_bound = omega arith;
}

work-AreWords : AreWords work
work-AreWords = record {
  page_count_bound = omega arith;
  page_alloc_bound = omega arith;
  cursor_count_bound = omega arith;
  node_count_bound = omega arith;
  node_deref_bound = omega arith;
  rebalance_bound = omega arith;
  rebalance_time_bound = omega arith;
  split_bound = omega arith;
  spill_bound = omega arith;
  spill_time_bound = omega arith;
  write_bound = omega arith;
  write_time_bound = omega arith;
}

abbrev stats_of : TxStats → Stats
stats_of s = record {
  free_page_n = 1;
  pending_page_n = 2;
  free_alloc = 4096;
  freelist_inuse = 32;
  tx_n = 5;
  open_tx_n = 1;
  tx_stats = s;
}

counters_come_back :
    (sub_stats (add_stats (stats_of before) (stats_of work)) (some (stats_of before))).tx_stats
    ≡ work
counters_come_back =
    sub_stats-add_stats (stats_of before) (stats_of work) before-AreWords work-AreWords
