-- ===== src/Arfs/Tests.antt =====
-- The allocation of sectors on a device of 40 sectors that holds one file.
mod Disk
mod Mounted
use arwill.Prelude.{
  true, codes, ℕ, ◌+◌, ◌≤◌, ◌<◌, ◌≡◌, refl, inl, inr, some, List, [], ◌∷◌, All, arith,
}
use arwill.Files.{text}
use arwill.Arfs.Paths.{is_child_of, path_is_valid, segments_are_valid, is_one_segment, has_slash}
use arwill.Text.{text_equals, starts_with}
use arwill.Arfs.Types.{directory, file, Entry, Context, entry_sector_count}
use arwill.Arfs.Sectors.{
  sector_range_is_free, first_free, allocate_sectors, ClearOf, allocate_sectors_lem,
  allocate_sectors_complete,
}

nested : is_child_of (codes "/a/b") (codes "/a") ≡ true
unfolding is_child_of is_one_segment has_slash text_equals starts_with
nested = refl

deep_valid : path_is_valid (codes "/a/bc") ≡ true
unfolding path_is_valid segments_are_valid
deep_valid = refl

newline_valid : path_is_valid (codes "/a\nb") ≡ true
unfolding path_is_valid segments_are_valid
newline_valid = refl

-- A file of 1000 bytes in the sectors 20 and 21, behind an empty one.
abbrev two_entries : List Entry
two_entries =
    record {
      kind = directory;
      file_type = text;
      path = b'/' ∷ [];
      name = b'/' ∷ [];
      data_lba = 0;
      size_bytes = 0;
    }
    ∷ record {
      kind = file;
      file_type = text;
      path = b'/' ∷ b'a' ∷ [];
      name = b'a' ∷ [];
      data_lba = 20;
      size_bytes = 1000;
    }
    ∷ []

abbrev small_disk : Context
small_disk = record {
  entries = two_entries;
  manifest_lba = 2;
  manifest_sectors = 16;
  data_lba = 18;
}

allocates_behind : allocate_sectors small_disk 40 3 ≡ some 22
unfolding allocate_sectors first_free sector_range_is_free entry_sector_count
allocates_behind = refl

root_takes_none :
    entry_sector_count (record {
      kind = directory;
      file_type = text;
      path = b'/' ∷ [];
      name = b'/' ∷ [];
      data_lba = 0;
      size_bytes = 0;
    })
    ≡ 0
unfolding entry_sector_count
root_takes_none = refl

file_takes_two :
    entry_sector_count (record {
      kind = file;
      file_type = text;
      path = b'/' ∷ b'a' ∷ [];
      name = b'a' ∷ [];
      data_lba = 20;
      size_bytes = 1000;
    })
    ≡ 2
unfolding entry_sector_count
file_takes_two = refl

allocate_sectors_lem_example : (0 < 3) × (18 ≤ 22) × (22 + 3 ≤ 40) × All (ClearOf 22 3) two_entries
allocate_sectors_lem_example =
    allocate_sectors_lem small_disk 40 3 22 (omega arith)
      (inl root_takes_none, (inr (omega arith, omega (arith, file_takes_two)), tt)) allocates_behind
