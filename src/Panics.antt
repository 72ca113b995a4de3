-- ===== src/Panics.antt =====
-- The panics that the modelled code raises, one constructor for each message, with the numbers
-- that the message prints; `diverged` stands for a loop that used up the rounds it was given.
use Prim.Native.Nat.{ℕ}

pub data Panic : Type 0 where
  diverged index_out_of_range merge_bad_len zero_old_key zero_new_key zero_inode_key : Panic
  inode_overflow circular_dependency closed_tx nil_pointer no_key nodes_map_expected : Panic
  empty_stack expected_branch_node expected_leaf_node : Panic
  invalid_meta_pages managed_commit managed_rollback : Panic
  above_high_water_mark root_above_high_water_mark freelist_above_high_water_mark : ℕ → ℕ → Panic
  invalid_allocation free_meta_page already_freed : ℕ → Panic
  invalid_page_type inline_page_access invalid_child_at : ℕ → Panic
