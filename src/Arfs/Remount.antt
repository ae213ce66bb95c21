-- ===== src/Arfs/Remount.antt =====
-- What `persist_manifest` of kernel/arfs.c leaves on the device is what the next mount finds.
use arwill.Prelude.{
  ℕ, ◌-◌, ◌*◌, ◌≤◌, ◌<◌, ◌≡◌, refl, ap, ◌∙◌, Bool, true, false, ◌||◌, if◌then◌else◌, ◌==◌, ltb, leb,
  u32, Option, none, some, List, [], length, take, All, arith,
}
use arwill.Block.{Device, block_read, block_write}
use arwill.Arfs.Types.{
  Entry, Context, sector_size, max_entries, manifest_capacity, max_manifest_sectors,
}
use arwill.Arfs.Manifest.{write_entries, padded, persist_manifest}
use arwill.Arfs.Parse.{parse_manifest}
use arwill.Arfs.Lines.{IsPrintable}
use arwill.Arfs.Roundtrip.{lines_text}
use arwill.Arfs.Contents.{IsDisk}
use arwill.Arfs.Mount.{mount_at}
use arwill.Arfs.Reparse.{write_entries_lem, take_twice, take-padded, parse_manifest-lines_text}

module _ {D : Type 0} where
  -- On a device that keeps what it is given, let a context have 1 to 24 entries, its data area start on the
  -- device, its manifest have one sector or two and the text of its entries fit them, and let every entry
  -- be printable: its path holds a byte at least and at most 63, none of them a space, a line end or a NUL,
  -- its name is the one that the path gives, a directory has no contents, and a file's place and size are
  -- 64-bit words. Then, where the write of its manifest reports success, the next mount gives this context,
  -- once it has read the places of the manifest and of the data in the superblock.
  pub mount_at-persist_manifest :
      (dev : Device D) (c : Context) (hw : D) (stale : ℕ → List ℕ)
      → IsDisk dev
      → c.data_lba < dev.sector_count
      → 0 < c.manifest_sectors
      → c.manifest_sectors ≤ max_manifest_sectors
      → 0 < length c.entries
      → length c.entries ≤ max_entries
      → All IsPrintable c.entries
      → length (lines_text c.entries) ≤ c.manifest_sectors * sector_size
      → (persist_manifest dev c hw).0 ≡ true
      → mount_at dev
          ((persist_manifest dev c hw).1)
          stale
          c.manifest_lba
          c.manifest_sectors
          c.data_lba
        ≡ (true, c)
  unfolding persist_manifest mount_at
  mount_at-persist_manifest dev c hw stale disk inside pos at_most some_entry few printable fits
        stored =
      go (write_entries [] c.entries) (write_entries_lem c.entries []) stored
    where
      sectors : ℕ
      sectors = c.manifest_sectors

      text : List ℕ
      text = lines_text c.entries

      write : Option (List ℕ) → Bool × D
      write o = elim o [
        | none ↦ (false, hw)
        | some bytes ↦
            block_write dev hw c.manifest_lba (u32 sectors) (padded manifest_capacity bytes)
              manifest_capacity
      ]

      found : Option (List Entry) → Bool × Context
      found o = elim o [
        | none ↦ (false, record c { entries = [] })
        | some entries ↦ (true, record c { entries = entries })
      ]

      read : Option (List ℕ) → Bool × Context
      read o = elim o [
        | none ↦ (false, record c { entries = [] })
        | some manifest ↦ found (parse_manifest stale (take (sectors * sector_size) manifest))
      ]

      whole : u32 sectors ≡ sectors
      whole = omega arith

      taken :
          (buffer : List ℕ)
          → take (sectors * sector_size) (take (u32 sectors * sector_size) buffer)
            ≡ take (sectors * sector_size) buffer
      taken buffer =
          ap (λ k. take (sectors * sector_size) (take (k * sector_size) buffer)) whole
          ∙ take_twice (sectors * sector_size) buffer

      parsed :
          parse_manifest stale (
            take
              (sectors * sector_size)
              (take (u32 sectors * sector_size) (padded manifest_capacity text)))
          ≡ some c.entries
      parsed =
          ap (parse_manifest stale) (
            taken (padded manifest_capacity text)
            ∙ take-padded (sectors * sector_size) manifest_capacity text fits (omega arith))
          ∙ parse_manifest-lines_text stale c.entries (sectors * sector_size - length text)
              some_entry few printable

      on_device : leb dev.sector_count c.data_lba ≡ false
      on_device = ground arith

      in_range : (sectors == 0 || ltb max_manifest_sectors sectors) ≡ false
      in_range = ground arith

      go :
          (o : Option (List ℕ))
          → ((out : List ℕ) → o ≡ some out → out ≡ text)
          → (write o).0 ≡ true
          → (if leb dev.sector_count c.data_lba
              then (false, record c { entries = []; manifest_lba = 0; manifest_sectors = 0 })
              else if sectors == 0 || ltb max_manifest_sectors sectors
              then (false, record c { entries = [] })
              else read
                  (block_read dev ((write o).1) c.manifest_lba (u32 sectors) manifest_capacity))
            ≡ (true, c)
      go none same ok = cc
      go (some bytes) same ok =
          rw (on_device, in_range)
            (ap read (
                disk.written hw c.manifest_lba (u32 sectors) manifest_capacity manifest_capacity
                  (padded manifest_capacity bytes) (omega arith) ok)
              ∙ ap
                  (λ l. found (
                    parse_manifest stale (
                      take (sectors * sector_size)
                        (take (u32 sectors * sector_size) (padded manifest_capacity l)))))
                  (same bytes refl)
              ∙ ap found parsed)
