-- ===== src/Arfs/Tests/Mounted.antt =====
-- A sound file system of two entries on a device that keeps what it is given, and what is done to it.
use arwill.Prelude.{
  ◌≡◌, ◌≢◌, ◌⊎◌, refl, inl, inr, true, false, some, List, [], ◌∷◌, length, replicate, codes, leb,
  leb→le, ap, arith,
}
use arwill.Files.{ListedEntry, text, binary}
use arwill.Block.{block_write, range_fits, buffer_fits}
use arwill.Text.Decimal.{decimal64, digits_onto}
use arwill.Arfs.Types.{directory, file, Entry, Context, entry_sector_count}
use arwill.Arfs.Paths.{derive_name, last_slash, copy_token}
use arwill.Arfs.Manifest.{persist_manifest, write_entries, write_entry, write_text, write_decimal}
use arwill.Arfs.Ops.{write_bytes, read_file}
use arwill.Arfs.Placement.{IsValid}
use arwill.Arfs.Keeps.{Kept}
use arwill.Arfs.Steps.{
  Request, write, create, delete, perform, perform_all, perform-Kept, perform_all-IsValid,
}
use arwill.Arfs.WriteRead.{read_file-write_bytes, read_file-write_bytes_other}
use arwill.Arfs.Lines.{IsPrintable, is_token, is_word}
use arwill.Arfs.FileLine.{line_text, details_text}
use arwill.Arfs.Roundtrip.{lines_text}
use arwill.Arfs.Mount.{mount_at}
use arwill.Arfs.Storage.{list, storage_stats}
use arwill.Arfs.Listing.{HasDirectory, Lists, list_lem}
use arwill.Arfs.Capacity.{storage_stats_lem}
use arwill.Arfs.Sectors.{allocate_sectors}
use arwill.Files.{StorageStats}
use arwill.Prelude.{none, ◌+◌, ◌≤◌, ◌<◌, ℕ}
use arwill.Arfs.Remount.{mount_at-persist_manifest}
use arwill.Arfs.Tests.Disk.{Sectors, device, device-IsDisk}

abbrev root : Entry
root = record {
  kind = directory;
  file_type = binary;
  path = codes "/";
  name = codes "/";
  data_lba = 0;
  size_bytes = 0;
}

abbrev long_file : Entry
long_file = record {
  kind = file;
  file_type = text;
  path = codes "/a";
  name = codes "a";
  data_lba = 20;
  size_bytes = 1000;
}

abbrev mounted : Context
mounted = record {
  entries = root ∷ long_file ∷ [];
  manifest_lba = 4;
  manifest_sectors = 2;
  data_lba = 18;
}

abbrev fresh : Sectors
fresh lba = replicate 512 0

root_takes_none : entry_sector_count root ≡ 0
unfolding entry_sector_count
root_takes_none = refl

file_takes_two : entry_sector_count long_file ≡ 2
unfolding entry_sector_count
file_takes_two = refl

mounted-IsValid : IsValid 40 mounted
mounted-IsValid = record {
  few = omega arith;
  stored = (inl root_takes_none, (inr (omega arith, omega (arith, file_takes_two)), tt));
  apart = (((λ h. omega (arith, ap length h), inl root_takes_none), tt), (tt, tt));
}

abbrev requests : List Request
requests =
    write [] (codes "/b") text (codes "hi") ∷ create [] (codes "/d") ∷ delete (codes "/a") ∷ []

perform-Kept_example : Kept 40 mounted (perform device (delete (codes "/a")) mounted fresh)
perform-Kept_example =
    perform-Kept device (delete (codes "/a")) mounted fresh (omega arith) mounted-IsValid

perform_all-IsValid_example : IsValid 40 ((perform_all device requests mounted fresh).0)
perform_all-IsValid_example =
    perform_all-IsValid device requests mounted fresh (omega arith) mounted-IsValid

read_file-write_bytes_example :
    let (took, after, hw) = write_bytes device mounted fresh [] (codes "/b") text (codes "hi") in
    (took ≡ false)
    ⊎ (read_file device after hw (codes "/b")
        ≡ some (record { kind = text; contents = some (codes "hi") }))
read_file-write_bytes_example =
    read_file-write_bytes device device-IsDisk mounted fresh [] (codes "/b") text (codes "hi")
      (omega arith) mounted-IsValid (omega arith, omega arith)

paths_differ : codes "/b" ≢ codes "/a"
paths_differ h = ground arith

read_file-write_bytes_other_example :
    let (took, after, hw) = write_bytes device mounted fresh [] (codes "/b") text (codes "hi") in
    read_file device after hw (codes "/a") ≡ read_file device mounted fresh (codes "/a")
read_file-write_bytes_other_example =
    read_file-write_bytes_other device device-IsDisk mounted fresh [] (codes "/b") text (codes "hi")
      (omega arith) mounted-IsValid (omega arith, omega arith) (codes "/a") (λ h. paths_differ h)

-- every name of the disk is its path's last part
root-IsPrintable : IsPrintable root
unfolding is_token is_word derive_name last_slash copy_token
root-IsPrintable = record {
  token = refl;
  fits = omega arith;
  named = λ before. refl;
  of_kind = (refl, refl, refl);
}

file-IsPrintable : IsPrintable long_file
unfolding is_token is_word derive_name last_slash copy_token
file-IsPrintable = record {
  token = refl;
  fits = omega arith;
  named = λ before. refl;
  of_kind = (omega arith, omega arith);
}

text_fits : leb (length (lines_text mounted.entries)) 1024 ≡ true
unfolding lines_text line_text details_text decimal64 digits_onto
text_fits = refl

is_stored : (persist_manifest device mounted fresh).0 ≡ true
unfolding persist_manifest write_entries write_entry write_text write_decimal block_write range_fits
    buffer_fits decimal64 digits_onto
is_stored = refl

mount_at-persist_manifest_example :
    mount_at device ((persist_manifest device mounted fresh).1) (λ line. []) 4 2 18
    ≡ (true, mounted)
mount_at-persist_manifest_example =
    mount_at-persist_manifest device mounted fresh (λ line. []) device-IsDisk (omega arith)
      (omega arith) (omega arith) (omega arith) (omega arith)
      (root-IsPrintable, (file-IsPrintable, tt)) (leb→le _ _ text_fits) is_stored

list_lem_example :
    (((codes "/" ≡ codes "/") ⊎ HasDirectory mounted.entries (codes "/"))
      × ((rows : List ListedEntry) × (list mounted (codes "/") ≡ some rows)
          × Lists (codes "/") mounted.entries rows))
    ⊎ (¬ ((codes "/" ≡ codes "/") ⊎ HasDirectory mounted.entries (codes "/"))
        × (list mounted (codes "/") ≡ none))
list_lem_example = list_lem 40 mounted (codes "/") mounted-IsValid (refl, (refl, tt))

storage_stats_lem_example :
    (s : StorageStats) × (storage_stats mounted 40 ≡ some s)
    × (s.used_data_sectors + s.free_data_sectors ≡ 22)
    × (s.largest_free_run_sectors ≤ s.free_data_sectors)
    × ((n : ℕ)
        → 0 < n
        → n ≤ s.largest_free_run_sectors
        → (g : ℕ) × (allocate_sectors mounted 40 n ≡ some g))
storage_stats_lem_example =
    storage_stats_lem mounted 40 (omega arith) (omega arith) mounted-IsValid.stored
