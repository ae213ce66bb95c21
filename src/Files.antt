-- ===== src/Files.antt =====
-- kernel/filesystem.c: the interface between a file system and those who use it. What stands behind the
-- interface works on a state `F`; each of its functions may be a null pointer.
use arwill.Prelude.{ℕ, Bool, false, Option, none, some, List}

-- `enum arwill_fs_file_type`
pub data FileType : Type 0 where
  text binary : FileType

-- `struct arwill_fs_file`: the contents are null, or as many bytes as `size_bytes` says.
pub record File : Type 0 where
  pub kind : FileType
  pub contents : Option (List ℕ)

-- `enum arwill_fs_entry_type`
pub data EntryType : Type 0 where
  directory file : EntryType

-- `struct arwill_fs_entry`
pub record ListedEntry : Type 0 where
  pub name : List ℕ
  pub type : EntryType
  pub size_bytes : ℕ

-- `struct arwill_fs_storage_stats`
pub record StorageStats : Type 0 where
  pub entries_used : ℕ
  pub entries_capacity : ℕ
  pub manifest_sectors : ℕ
  pub data_sectors : ℕ
  pub used_data_sectors : ℕ
  pub free_data_sectors : ℕ
  pub largest_free_run_sectors : ℕ
  pub max_path_bytes : ℕ
  pub max_file_bytes : ℕ

-- `struct arwill_filesystem`
pub record Filesystem (F : Type 0) : Type 0 where
  pub list : Option (F → List ℕ → Option (List ListedEntry))
  pub read_file : Option (F → List ℕ → Option File)
  pub create_directory : Option (F → List ℕ → Bool × F)
  pub write_bytes : Option (F → List ℕ → FileType → List ℕ → Bool × F)
  pub remove : Option (F → List ℕ → Bool × F)
  pub storage_stats : Option (F → Option StorageStats)

module _ {F : Type 0} where
  -- `arwill_filesystem_list`; `none` is failure.
  unfoldable pub list : Option (Filesystem F) → F → List ℕ → Option (List ListedEntry)
  list none disk path = none
  list (some fs) disk path = elim (fs.list) [ none ↦ none | some callback ↦ callback disk path ]

  -- `arwill_filesystem_read_file`; `none` is failure.
  unfoldable pub read_file : Option (Filesystem F) → F → List ℕ → Option File
  read_file none disk path = none
  read_file (some fs) disk path = elim (fs.read_file) [
    | none ↦ none
    | some callback ↦ callback disk path
  ]

  -- `arwill_filesystem_create_directory`
  unfoldable pub create_directory : Option (Filesystem F) → F → List ℕ → Bool × F
  create_directory none disk path = (false, disk)
  create_directory (some fs) disk path = elim (fs.create_directory) [
    | none ↦ (false, disk)
    | some callback ↦ callback disk path
  ]

  -- `arwill_filesystem_write_bytes` of contents that are not null
  unfoldable pub write_bytes : Option (Filesystem F) → F → List ℕ → FileType → List ℕ → Bool × F
  write_bytes none disk path kind bytes = (false, disk)
  write_bytes (some fs) disk path kind bytes = elim (fs.write_bytes) [
    | none ↦ (false, disk)
    | some callback ↦ callback disk path kind bytes
  ]

  -- `arwill_filesystem_remove`
  unfoldable pub remove : Option (Filesystem F) → F → List ℕ → Bool × F
  remove none disk path = (false, disk)
  remove (some fs) disk path = elim (fs.remove) [
    | none ↦ (false, disk)
    | some callback ↦ callback disk path
  ]

  -- `arwill_filesystem_storage_stats`
  unfoldable pub storage_stats : Option (Filesystem F) → F → Option StorageStats
  storage_stats none disk = none
  storage_stats (some fs) disk = elim (fs.storage_stats) [
    | none ↦ none
    | some callback ↦ callback disk
  ]
