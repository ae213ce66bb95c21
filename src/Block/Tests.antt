-- ===== src/Block/Tests.antt =====
-- A read through a region of a device whose bytes are the numbers of their sectors.
use arwill.Prelude.{
  ℕ, zero, suc, ◌+◌, ◌≤◌, ◌≡◌, refl, if◌then◌else◌, none, some, List, [], ◌∷◌, arith,
}
use arwill.Block.{Device, range_fits, block_read}
use arwill.Block.Region.{region_device, as_device, region-block_read}

sector_numbers : ℕ → ℕ → List ℕ
sector_numbers lba zero = []
sector_numbers lba (suc count) = lba ∷ sector_numbers (lba + 1) count

abbrev disk : Device Unit
disk = record {
  sector_size = 1;
  sector_count = 100;
  read = some (λ hw lba count buffer_size. some (sector_numbers lba count));
  write = none;
}

region_of_disk : region_device disk 40 20 ≡ some (as_device disk 40 20)
unfolding region_device
region_of_disk = refl

region-block_read_example :
    (40 + 20 ≤ 100)
    × (block_read (as_device disk 40 20) tt 5 3 512
        ≡ (if range_fits 20 5 3 then block_read disk tt (40 + 5) 3 512 else none))
region-block_read_example =
    region-block_read disk (as_device disk 40 20) tt 40 20 5 3 512 (omega arith) (omega arith)
      region_of_disk
