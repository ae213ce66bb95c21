-- ===== src/Prelude/Words.antt =====
-- The unsigned machine integers of C: a value is a number below `2 ^ w`, and an operation wraps.
use Prim.Native.Nat.{ℕ, ◌+◌, ◌-◌, ◌%◌, ◌^◌, bit_and}
use mathlib.Core.Bool.{Bool, not}
use arwill.Prelude.Tests.{◌==◌}

abbrev pub u8 : ℕ → ℕ
u8 n = n % 2 ^ 8

abbrev pub u16 : ℕ → ℕ
u16 n = n % 2 ^ 16

abbrev pub u32 : ℕ → ℕ
u32 n = n % 2 ^ 32

-- `uint64_t`, and `size_t` on x86-64
abbrev pub u64 : ℕ → ℕ
u64 n = n % 2 ^ 64

-- `(uint32_t)(a - b)`
abbrev pub sub32 : ℕ → ℕ → ℕ
sub32 a b = (a + 2 ^ 32 - b) % 2 ^ 32

abbrev pub uint32_max : ℕ
uint32_max = 2 ^ 32 - 1

abbrev pub uint64_max : ℕ
uint64_max = 2 ^ 64 - 1

-- `(flags & bit) != 0U`
abbrev pub has : ℕ → ℕ → Bool
has flags bit = not (bit_and flags bit == 0)
