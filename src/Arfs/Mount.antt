-- ===== src/Arfs/Mount.antt =====
-- `arwill_arfs_mount`: the superblock, and the manifest that it points to.
use arwill.Prelude.{
  ℕ, ◌*◌, Bool, true, false, not, ◌||◌, if◌then◌else◌, ◌==◌, ltb, leb, u32, uint64_max, Option,
  none, some, List, [], ◌∷◌, length, take, drop, codes,
}
use arwill.Text.{starts_with}
use arwill.Text.Decimal.{is_digit, parse_decimal}
use arwill.Block.{Device, block_read}
use arwill.Arfs.Types.{
  Context, sector_size, superblock_lba, manifest_capacity, max_manifest_sectors,
}
use arwill.Arfs.Parse.{parse_manifest}

-- the digits that a text begins with
unfoldable pub take_digits : List ℕ → List ℕ
take_digits [] = []
take_digits (c ∷ rest) = let later = take_digits rest in if is_digit c then c ∷ later else []

-- `parse_key_decimal`, on the bytes of the sector from some index on
unfoldable pub parse_key_decimal : List ℕ → List ℕ → Option ℕ
parse_key_decimal [] key = none
parse_key_decimal (c ∷ rest) key =
    let later = parse_key_decimal rest key in
    if not (ltb (length key) (length (c ∷ rest)))
    then none
    else if starts_with (c ∷ rest) key
    then parse_decimal uint64_max (take_digits (drop (length key) (c ∷ rest)))
    else later

module _ {D : Type 0} where
  -- The end of `arwill_arfs_mount`, once the places are known.
  unfoldable pub mount_at : Device D → D → (ℕ → List ℕ) → ℕ → ℕ → ℕ → Bool × Context
  mount_at dev hw stale manifest_lba manifest_sectors data_lba =
      let empty : Context = record {
        entries = [];
        manifest_lba = 0;
        manifest_sectors = 0;
        data_lba = data_lba;
      } in
      let placed = record empty {
        manifest_lba = manifest_lba;
        manifest_sectors = manifest_sectors;
      } in
      if leb dev.sector_count data_lba
      then (false, empty)
      else if manifest_sectors == 0 || ltb max_manifest_sectors manifest_sectors
      then (false, placed)
      else elim (block_read dev hw manifest_lba (u32 manifest_sectors) manifest_capacity) [
        | none ↦ (false, placed)
        | some manifest ↦
            elim (parse_manifest stale (take (manifest_sectors * sector_size) manifest)) [
              | none ↦ (false, placed)
              | some entries ↦ (true, record placed { entries = entries })
            ]
      ]

  -- `arwill_arfs_mount` of a device that is not null: whether it succeeds, and the context.
  unfoldable pub mount : Device D → D → (ℕ → List ℕ) → Bool × Context
  mount dev hw stale =
      let nothing : Context = record {
        entries = [];
        manifest_lba = 0;
        manifest_sectors = 0;
        data_lba = 0;
      } in
      if not (dev.sector_size == sector_size)
      then (false, nothing)
      else elim (block_read dev hw superblock_lba 1 sector_size) [
        | none ↦ (false, nothing)
        | some superblock ↦
            (if not (starts_with superblock (codes "ARFS2\n"))
              then (false, nothing)
              else elim (parse_key_decimal superblock (codes "manifest_lba=")) [
                | none ↦ (false, nothing)
                | some manifest_lba ↦
                    elim (parse_key_decimal superblock (codes "manifest_sectors=")) [
                      | none ↦ (false, nothing)
                      | some manifest_sectors ↦
                          elim (parse_key_decimal superblock (codes "data_lba=")) [
                            | none ↦ (false, nothing)
                            | some data_lba ↦
                                mount_at dev hw stale manifest_lba manifest_sectors data_lba
                          ]
                    ]
              ])
      ]
