-- ===== src/Block.antt =====
-- kernel/block_device.c: the checks in front of a device's callbacks, and regions of a device. The
-- callbacks are not part of this code: a device is a record of two functions on the state `D` of the
-- hardware behind it, each of which may be a null pointer.
pub mod Region
mod Tests
use arwill.Prelude.{
  ℕ, ◌+◌, ◌-◌, ◌*◌, ◌≤◌, ◌<◌, ◌≡◌, Bool, true, false, not, ◌||◌, if◌then◌else◌, ◌==◌, ltb, leb, u64,
  uint64_max, Option, none, some, List,
}

-- `struct arwill_block_device`: a read gives the bytes, or fails; a write says whether it succeeded,
-- and leaves the hardware in some state either way.
pub record Device (D : Type 0) : Type 0 where
  pub sector_size : ℕ
  pub sector_count : ℕ
  pub read : Option (D → ℕ → ℕ → ℕ → Option (List ℕ))
  pub write : Option (D → ℕ → ℕ → List ℕ → ℕ → Bool × D)

-- `range_fits`; its argument is the device's sector count.
unfoldable pub range_fits : ℕ → ℕ → ℕ → Bool
range_fits sectors lba count =
    if count == 0
    then false
    else if ltb (uint64_max - count) lba
    then false
    else leb (u64 (lba + count)) sectors

-- `buffer_fits`; its first argument is the device's sector size, a 32-bit word.
unfoldable pub buffer_fits : ℕ → ℕ → ℕ → Bool
buffer_fits size count buffer_size =
    let required = u64 (count * size) in
    if size == 0 || ltb uint64_max required then false else leb required buffer_size

module _ {D : Type 0} where
  -- `arwill_block_read` into a buffer of `buffer_size` bytes that is not null
  unfoldable pub block_read : Device D → D → ℕ → ℕ → ℕ → Option (List ℕ)
  unfolding range_fits buffer_fits
  block_read d hw lba count buffer_size = elim (d.read) [
    | none ↦ none
    | some callback ↦
        (if not (range_fits d.sector_count lba count)
          then none
          else if not (buffer_fits d.sector_size count buffer_size)
          then none
          else callback hw lba count buffer_size)
  ]

  -- `arwill_block_write` from a buffer of `buffer_size` bytes that is not null
  unfoldable pub block_write : Device D → D → ℕ → ℕ → List ℕ → ℕ → Bool × D
  unfolding range_fits buffer_fits
  block_write d hw lba count buffer buffer_size = elim (d.write) [
    | none ↦ (false, hw)
    | some callback ↦
        (if not (range_fits d.sector_count lba count)
          then (false, hw)
          else if not (buffer_fits d.sector_size count buffer_size)
          then (false, hw)
          else callback hw lba count buffer buffer_size)
  ]
