-- ===== src/Prelude/Words.antt =====
-- Machine words: `u64` sums wrap, as release builds compute them.
use Prim.Native.Nat.{ℕ, ◌+◌, ◌%◌, ◌^◌}

abbrev pub u64_mod : ℕ
u64_mod = 2 ^ 64

abbrev pub u32_mod : ℕ
u32_mod = 2 ^ 32

abbrev pub add_u64 : ℕ → ℕ → ℕ
add_u64 a b = (a + b) % u64_mod

abbrev pub add_u32 : ℕ → ℕ → ℕ
add_u32 a b = (a + b) % u32_mod
