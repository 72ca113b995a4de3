-- ===== src/Words.antt =====
-- Go's fixed-width integers: `uint64`, `uint32` and `uint16` wrap around.
use Prim.Native.Nat.{ℕ, ◌+◌, ◌-◌, ◌%◌, ◌^◌}

abbrev pub u16_max : ℕ
u16_max = 0xFFFF

abbrev pub u64_mod : ℕ
u64_mod = 2 ^ 64

-- a + b and a - b on `uint64`
abbrev pub add64 : ℕ → ℕ → ℕ
add64 a b = (a + b) % u64_mod

abbrev pub sub64 : ℕ → ℕ → ℕ
sub64 a b = (a + u64_mod - b) % u64_mod
