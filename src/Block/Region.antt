-- ===== src/Block/Region.antt =====
-- A region of a block device (kernel/block_device.c) reaches its own sectors and no others.
use arwill.Prelude.{
  ℕ, ◌+◌, ◌-◌, ◌^◌, ◌≤◌, ◌<◌, ◌≡◌, refl, sym, Bool, true, false, not, ◌||◌, if◌then◌else◌, ◌==◌,
  ltb, u64, uint64_max, Option, none, some, List, Bool-cases, inl, inr, arith,
}
use mathlib.Core.Option.{some-injective}
use arwill.Block.{Device, range_fits, buffer_fits, block_read, block_write}

range_fits_lem :
    (sectors lba count : ℕ)
    → sectors < 2 ^ 64
    → count < 2 ^ 32
    → range_fits sectors lba count ≡ true
    → (0 < count) × (lba + count ≤ sectors)
unfolding range_fits
range_fits_lem sectors lba count word few h = ground arith

module _ {D : Type 0} where
  -- `region_read`, of the region of `parent` that begins at `first_lba`
  unfoldable pub region_read : Device D → ℕ → D → ℕ → ℕ → ℕ → Option (List ℕ)
  region_read parent first_lba hw lba count buffer_size =
      if ltb (uint64_max - first_lba) lba
      then none
      else block_read parent hw (u64 (first_lba + lba)) count buffer_size

  -- `region_write`
  unfoldable pub region_write : Device D → ℕ → D → ℕ → ℕ → List ℕ → ℕ → Bool × D
  region_write parent first_lba hw lba count buffer buffer_size =
      if ltb (uint64_max - first_lba) lba
      then (false, hw)
      else block_write parent hw (u64 (first_lba + lba)) count buffer buffer_size

  -- `arwill_block_region_init` followed by `arwill_block_region_device`; `none` is a null pointer.
  unfoldable pub region_device : Device D → ℕ → ℕ → Option (Device D)
  region_device parent first_lba sector_count =
      if sector_count == 0
        || (ltb parent.sector_count first_lba || ltb (parent.sector_count - first_lba) sector_count)
      then none
      else some (record {
        sector_size = parent.sector_size;
        sector_count = sector_count;
        read = some (region_read parent first_lba);
        write = elim (parent.write) [ none ↦ none | some _ ↦ some (region_write parent first_lba) ];
      })

  -- the device that a region becomes
  abbrev pub as_device : Device D → ℕ → ℕ → Device D
  as_device parent first_lba sector_count = record {
    sector_size = parent.sector_size;
    sector_count = sector_count;
    read = some (region_read parent first_lba);
    write = elim (parent.write) [ none ↦ none | some _ ↦ some (region_write parent first_lba) ];
  }

  region_device_lem :
      (parent d : Device D) (first_lba sector_count : ℕ)
      → region_device parent first_lba sector_count ≡ some d
      → (first_lba + sector_count ≤ parent.sector_count)
        × (as_device parent first_lba sector_count ≡ d)
  unfolding region_device
  region_device_lem parent d first_lba sector_count made =
      elim (Bool-cases (
        sector_count == 0
        || (ltb parent.sector_count first_lba
            || ltb (parent.sector_count - first_lba) sector_count))) [
              | inl bad ↦ cc (rw bad at made)
              | inr good ↦ (
                ground arith,
                some-injective (as_device parent first_lba sector_count) d (rw good at made),
              )
            ]

  -- Without room in the buffer no device reads.
  no_room :
      (d : Device D) (hw : D) (lba count buffer_size : ℕ)
      → buffer_fits d.sector_size count buffer_size ≡ false
      → block_read d hw lba count buffer_size ≡ none
  unfolding block_read
  no_room d hw lba count buffer_size h = go d.read
    where
      go :
          (o : Option (D → ℕ → ℕ → ℕ → Option (List ℕ)))
          → let r : Option (List ℕ) = elim o [
            | none ↦ none
            | some callback ↦
                (if not (range_fits d.sector_count lba count)
                  then none
                  else if not (buffer_fits d.sector_size count buffer_size)
                  then none
                  else callback hw lba count buffer_size)
          ] in
            r ≡ none
      go none = refl
      go (some callback) = rw h (ground arith)

  no_room_write :
      (d : Device D) (hw : D) (lba count : ℕ) (buffer : List ℕ) (buffer_size : ℕ)
      → buffer_fits d.sector_size count buffer_size ≡ false
      → block_write d hw lba count buffer buffer_size ≡ (false, hw)
  unfolding block_write
  no_room_write d hw lba count buffer buffer_size h = go d.write
    where
      go :
          (o : Option (D → ℕ → ℕ → List ℕ → ℕ → Bool × D))
          → let r : Bool × D = elim o [
            | none ↦ (false, hw)
            | some callback ↦
                (if not (range_fits d.sector_count lba count)
                  then (false, hw)
                  else if not (buffer_fits d.sector_size count buffer_size)
                  then (false, hw)
                  else callback hw lba count buffer buffer_size)
          ] in
            r ≡ (false, hw)
      go none = refl
      go (some callback) = rw h (ground arith)

  -- A region that is made of a parent of fewer than 2^64 sectors lies on it. A read through it, of a
  -- count that is a 32-bit word, is the parent's read as many sectors further on as the region begins
  -- where the sectors lie in the region, and fails where they do not.
  pub region-block_read :
      (parent d : Device D) (hw : D) (first_lba sector_count lba count buffer_size : ℕ)
      → parent.sector_count < 2 ^ 64
      → count < 2 ^ 32
      → region_device parent first_lba sector_count ≡ some d
      → (first_lba + sector_count ≤ parent.sector_count)
        × (block_read d hw lba count buffer_size ≡ (
            if range_fits sector_count lba count
            then block_read parent hw (first_lba + lba) count buffer_size
            else none))
  unfolding block_read region_read
  region-block_read parent d hw first_lba sector_count lba count buffer_size word few made =
      let (inside, e) = region_device_lem parent d first_lba sector_count made in
      (
        inside,
        rw (← e) (elim (Bool-cases (range_fits sector_count lba count)) [
          | inr out ↦ rw out refl
          | inl fits ↦ elim (Bool-cases (buffer_fits parent.sector_size count buffer_size)) [
            | inr short ↦
                rw (fits, short) (sym (no_room parent hw (first_lba + lba) count buffer_size short))
            | inl room ↦
                let (pos, low) = range_fits_lem sector_count lba count (omega arith) few fits in
                let no_wrap : ltb (uint64_max - first_lba) lba ≡ false = ground arith in
                let exact : u64 (first_lba + lba) ≡ first_lba + lba = omega arith in
                rw (fits, room, no_wrap, exact) refl
          ]
        ]),
      )
