-- ===== src/Arfs/Storage.antt =====
-- The queries of kernel/arfs.c: `arfs_list` and `arfs_storage_stats`.
use arwill.Prelude.{
  ℕ, zero, suc, ◌+◌, ◌-◌, Bool, true, false, not, if◌then◌else◌, ltb, leb, u64, Option, none, some,
  List, [], ◌∷◌, length, codes,
}
use arwill.Text.{text_equals}
use arwill.Files.{EntryType, ListedEntry, StorageStats}
use arwill.Arfs.Types.{
  EntryKind, directory, file, is_file, Entry, Context, find_entry, max_entries, max_path_length,
  write_buffer_capacity,
}
use arwill.Arfs.Paths.{is_child_of}
use arwill.Arfs.Sectors.{sector_range_is_free}

abbrev pub max_listing_entries : ℕ
max_listing_entries = 24

abbrev pub type_of : EntryKind → EntryType
type_of directory = EntryType.directory
type_of file = EntryType.file

-- the row of a listing that shows an entry
abbrev pub listed : Entry → ListedEntry
listed e = record { name = e.name; type = type_of e.kind; size_bytes = e.size_bytes }

-- The loop of `arfs_list`, with `count` rows so far.
unfoldable pub list_children : List Entry → List ℕ → ℕ → Option (List ListedEntry)
list_children [] path count = some []
list_children (e ∷ es) path count =
    let skipped = list_children es path count in
    let taken = list_children es path (count + 1) in
    if not (is_child_of e.path path)
    then skipped
    else if leb max_listing_entries count
    then none
    else elim taken [ none ↦ none | some rows ↦ some (listed e ∷ rows) ]

-- the test of `arfs_list` in front of its loop
unfoldable pub is_listable : List Entry → List ℕ → Bool
is_listable es path =
    if text_equals path (codes "/")
    then true
    else elim (find_entry es path) [ none ↦ false | some e ↦ not (is_file e.kind) ]

-- `arfs_list`
unfoldable pub list : Context → List ℕ → Option (List ListedEntry)
list c path = if not (is_listable c.entries path) then none else list_children c.entries path 0

-- what the loop of `arfs_storage_stats` counts
pub record Runs : Type 0 where
  pub used : ℕ
  pub current_free_run : ℕ
  pub largest_free_run : ℕ

-- One round of it, at a sector.
unfoldable pub count_sector : List Entry → ℕ → Runs → Runs
count_sector es sector r =
    let run = u64 (r.current_free_run + 1) in
    if sector_range_is_free es sector 1
    then record r {
      current_free_run = run;
      largest_free_run = if ltb r.largest_free_run run then run else r.largest_free_run;
    }
    else record r { used = u64 (r.used + 1); current_free_run = 0 }

-- That loop, with so many sectors left.
unfoldable pub count_sectors : ℕ → List Entry → ℕ → Runs → Runs
count_sectors zero es sector r = r
count_sectors (suc left) es sector r =
    count_sectors left es (u64 (sector + 1)) (count_sector es sector r)

abbrev pub stats_of : Context → ℕ → Runs → StorageStats
stats_of c sectors runs = record {
  entries_used = length c.entries;
  entries_capacity = max_entries;
  manifest_sectors = c.manifest_sectors;
  data_sectors = sectors - c.data_lba;
  used_data_sectors = runs.used;
  free_data_sectors = sectors - c.data_lba - runs.used;
  largest_free_run_sectors = runs.largest_free_run;
  max_path_bytes = max_path_length - 1;
  max_file_bytes = write_buffer_capacity;
}

abbrev pub no_runs : Runs
no_runs = record { used = 0; current_free_run = 0; largest_free_run = 0 }

-- `arfs_storage_stats`, on a device of so many sectors
unfoldable pub storage_stats : Context → ℕ → Option StorageStats
storage_stats c sectors =
    let runs = count_sectors (sectors - c.data_lba) c.entries c.data_lba no_runs in
    if ltb sectors c.data_lba then none else some (stats_of c sectors runs)
