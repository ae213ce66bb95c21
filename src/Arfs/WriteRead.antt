-- ===== src/Arfs/WriteRead.antt =====
-- A file that `arfs_write_bytes` of kernel/arfs.c stores is read back, and the other files are left.
use arwill.Prelude.{ℕ, ◌+◌, ◌^◌, ◌<◌, ◌≡◌, ◌≢◌, refl, ◌⊎◌, inl, false, some, List}
use arwill.Files.{FileType}
use arwill.Block.{Device}
use arwill.Arfs.Types.{Context}
use arwill.Arfs.Ops.{read_file, write_bytes}
use arwill.Arfs.Placement.{IsValid}
use arwill.Arfs.Contents.{IsDisk}
use arwill.Arfs.Cases.{write_bytes_cases}
use arwill.Arfs.ReadBack.{IsInFront, Reads, Holds}
use arwill.Arfs.Written.{write_new-Reads, write_new-Holds, write_over-Reads, write_over-Holds}

module _ {D : Type 0} (dev : Device D) (disk : IsDisk dev) (c : Context) (hw : D)
    (stale path : List ℕ) (kind : FileType) (contents : List ℕ)
    (word : dev.sector_count + 1 < 2 ^ 64) (v : IsValid dev.sector_count c)
    (front : IsInFront c) where
  -- On a device of at most 2^64 - 2 sectors that keeps what it is given, with the manifest in front of
  -- the data and a sound file system: a write of a file fails, or the file is then read back with the
  -- type and the contents that were written.
  pub read_file-write_bytes :
      let (took, c', hw') = write_bytes dev c hw stale path kind contents in
      (took ≡ false)
      ⊎ (read_file dev c' hw' path ≡ some (record { kind = kind; contents = some contents }))
  read_file-write_bytes =
      write_bytes_cases dev c hw kind contents
        (Holds dev disk dev.sector_count path (record { kind = kind; contents = some contents }))
        stale path (inl refl)
        (λ small fresh.
          write_new-Holds dev disk c hw kind contents small word v front stale path fresh)
        (λ e small found.
          write_over-Holds dev disk c hw kind contents small word v front path e found)

  -- On such a device and file system, a write, whether it succeeds or fails, leaves what is read of every
  -- other path.
  pub read_file-write_bytes_other :
      (q : List ℕ)
      → path ≢ q
      → let (took, c', hw') = write_bytes dev c hw stale path kind contents in
        read_file dev c' hw' q ≡ read_file dev c hw q
  read_file-write_bytes_other q ne =
      write_bytes_cases dev c hw kind contents
        (Reads dev disk dev.sector_count q (read_file dev c hw q)) stale path refl
        (λ small fresh.
          write_new-Reads dev disk c hw kind contents small word v front stale path q fresh ne)
        (λ e small found.
          write_over-Reads dev disk c hw kind contents small word v front path e found q ne)
