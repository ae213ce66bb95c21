-- ===== src/Arfs/Types.antt =====
-- The constants, the entries and the context of kernel/arfs.c.
use arwill.Prelude.{
  ℕ, ◌+◌, ◌-◌, ◌/◌, Bool, true, false, not, ◌||◌, if◌then◌else◌, ◌==◌, u64, Option, none, some,
  List, [], ◌∷◌,
}
use arwill.Text.{text_equals}
use arwill.Files.{FileType}

abbrev pub sector_size : ℕ
sector_size = 512

abbrev pub max_entries : ℕ
max_entries = 24

abbrev pub max_path_length : ℕ
max_path_length = 64

abbrev pub max_name_length : ℕ
max_name_length = 32

abbrev pub file_buffer_capacity : ℕ
file_buffer_capacity = 196609

abbrev pub write_buffer_capacity : ℕ
write_buffer_capacity = 8192

-- `enum arfs_entry_kind`
pub data EntryKind : Type 0 where
  directory file : EntryKind

abbrev pub is_file : EntryKind → Bool
is_file directory = false
is_file file = true

-- `struct arfs_entry`
pub record Entry : Type 0 where
  pub kind : EntryKind
  pub file_type : FileType
  pub path : List ℕ
  pub name : List ℕ
  pub data_lba : ℕ
  pub size_bytes : ℕ

-- the part of `struct arfs_context` that lasts from one operation to the next
pub record Context : Type 0 where
  pub entries : List Entry
  pub manifest_lba : ℕ
  pub manifest_sectors : ℕ
  pub data_lba : ℕ

-- `find_entry`: the first entry of that path.
unfoldable pub find_entry : List Entry → List ℕ → Option Entry
find_entry [] path = none
find_entry (e ∷ es) path =
    let rest = find_entry es path in if text_equals e.path path then some e else rest

-- `entry_sector_count`
unfoldable pub entry_sector_count : Entry → ℕ
entry_sector_count e =
    if not (is_file e.kind) || e.size_bytes == 0
    then 0
    else u64 (e.size_bytes + sector_size - 1) / sector_size

-- the size of `manifest` in `struct arfs_context`
abbrev pub manifest_capacity : ℕ
manifest_capacity = 1024

abbrev pub superblock_lba : ℕ
superblock_lba = 3

abbrev pub max_manifest_sectors : ℕ
max_manifest_sectors = 2
