-- ===== src/Tcp/Sequence.antt =====
-- Sequence numbers modulo 2^32 (kernel/tcp.c), and that their comparison is the order on the circle.
use arwill.Prelude.{
  ℕ, ◌+◌, ◌^◌, ◌<◌, ◌≡◌, ◌↔◌, Bool, true, false, not, ◌&&◌, ltb, ◌==◌, u32, sub32, arith,
}

-- `arwill_tcp_sequence_before`
unfoldable pub sequence_before : ℕ → ℕ → Bool
sequence_before left right = not (left == right) && ltb 0x80000000 (sub32 left right)

-- `arwill_tcp_sequence_after`
unfoldable pub sequence_after : ℕ → ℕ → Bool
unfolding sequence_before
sequence_after left right = sequence_before right left

-- A number is before the one that lies `k` further on the circle exactly when `k` is at least 1 and
-- below half the circle, wrap-around included.
pub sequence_before_iff :
    (s k : ℕ)
    → s < 2 ^ 32
    → k < 2 ^ 32
    → (sequence_before s (u32 (s + k)) ≡ true) ↔ ((0 < k) × (k < 2 ^ 31))
unfolding sequence_before
sequence_before_iff s k hs hk = (λ h. ground arith, λ h. ground arith)

-- Of two numbers at most one is before the other.
pub sequence_before_asymm :
    (a b : ℕ) → a < 2 ^ 32 → b < 2 ^ 32 → sequence_before a b ≡ true → sequence_after a b ≡ false
unfolding sequence_after
sequence_before_asymm a b ha hb h = ground arith
