-- ===== src/Memory/Words.antt =====
-- The 64-bit arithmetic of kernel/memory.c, which saturates instead of wrapping.
use arwill.Prelude.{
  ℕ, ◌+◌, ◌-◌, ◌%◌, ◌^◌, ◌≤◌, ◌<◌, ◌≡◌, ◌≢◌, if◌then◌else◌, ◌==◌, ltb, u64, uint64_max, arith,
}

-- `align_down`
unfoldable pub align_down : ℕ → ℕ → ℕ
align_down value alignment = value - value % alignment

-- `align_up`, and `align_size_up`: on x86-64 both types are 64 bits wide.
unfoldable pub align_up : ℕ → ℕ → ℕ
align_up value alignment =
    let remainder = value % alignment in
    if remainder == 0
    then value
    else if ltb (uint64_max - (alignment - remainder)) value
    then uint64_max
    else u64 (value + (alignment - remainder))

-- `saturating_add`
unfoldable pub saturating_add : ℕ → ℕ → ℕ
saturating_add left right = if ltb (uint64_max - right) left then uint64_max else u64 (left + right)

-- Rounding a 64-bit word up to a page gives the least multiple of the page size at or above it,
-- or, where that is no 64-bit word, the largest word.
pub align_up-page :
    (v : ℕ)
    → v < 2 ^ 64
    → (v ≤ align_up v 4096)
      × (align_up v 4096 < v + 4096)
      × (align_up v 4096 < 2 ^ 64)
      × (align_up v 4096 ≢ uint64_max → align_up v 4096 % 4096 ≡ 0)
unfolding align_up
align_up-page v h = ground arith

-- The same of the heap's alignment.
pub align_up-heap :
    (v : ℕ)
    → v < 2 ^ 64
    → (v ≤ align_up v 16)
      × (align_up v 16 < v + 16)
      × (align_up v 16 < 2 ^ 64)
      × (align_up v 16 ≢ uint64_max → align_up v 16 % 16 ≡ 0)
unfolding align_up
align_up-heap v h = ground arith

pub align_down-page : (v : ℕ) → (align_down v 4096 ≤ v) × (align_down v 4096 % 4096 ≡ 0)
unfolding align_down
align_down-page v = omega arith

pub saturating_add_lem :
    (a b : ℕ)
    → a < 2 ^ 64
    → b < 2 ^ 64
    → (saturating_add a b ≤ a + b) × (saturating_add a b < 2 ^ 64)
unfolding saturating_add
saturating_add_lem a b ha hb = ground arith

pub align_up-heap_exact : (v : ℕ) → v ≤ uint64_max - 15 → align_up v 16 % 16 ≡ 0
unfolding align_up
align_up-heap_exact v h = ground arith
