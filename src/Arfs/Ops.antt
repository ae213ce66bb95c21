-- ===== src/Arfs/Ops.antt =====
-- The operations of kernel/arfs.c on a mounted file system, on the block device `dev` whose hardware is
-- in the state `hw`. An operation that adds an entry takes a slot of the array that is not in use; the
-- name that this slot still holds from before is the argument `stale`.
use arwill.Prelude.{
  ℕ, ◌+◌, ◌-◌, ◌/◌, Bool, true, false, not, ◌||◌, if◌then◌else◌, ◌==◌, ltb, leb, u32, u64,
  uint32_max, ◌&&◌, is_none, Option, none, some, List, [], ◌∷◌, ◌++◌, length, take,
}
use arwill.Text.{text_equals}
use arwill.Files.{FileType, binary, File}
use arwill.Block.{Device, block_read, block_write}
use arwill.Arfs.Types.{
  directory, file, is_file, Entry, Context, find_entry, entry_sector_count, sector_size,
  max_entries, max_path_length, file_buffer_capacity, write_buffer_capacity,
}
use arwill.Arfs.Paths.{copy_token, derive_name, path_is_valid, parent_directory_exists, is_child_of}
use arwill.Arfs.Sectors.{allocate_sectors}
use arwill.Arfs.Manifest.{padded, persist_manifest}

-- the sectors that `size` bytes take up
abbrev pub sectors_for : ℕ → ℕ
sectors_for size = if size == 0 then 0 else u64 (size + sector_size - 1) / sector_size

-- an assignment to the entry that `find_entry` gives
unfoldable pub replace_entry : List Entry → List ℕ → Entry → List Entry
replace_entry [] path new = []
replace_entry (e ∷ es) path new =
    let rest = replace_entry es path new in if text_equals e.path path then new ∷ es else e ∷ rest

-- the entries but the first of that path
unfoldable pub drop_entry : List Entry → List ℕ → List Entry
drop_entry [] path = []
drop_entry (e ∷ es) path =
    let rest = drop_entry es path in if text_equals e.path path then es else e ∷ rest

-- whether some entry lies directly below the directory
unfoldable pub has_child : List Entry → List ℕ → Bool
has_child [] path = false
has_child (e ∷ es) path = is_child_of e.path path || has_child es path

-- `add_directory_entry`: the entries, or `none` for failure.
unfoldable pub add_directory_entry : List Entry → List ℕ → List ℕ → Option (List Entry)
add_directory_entry es stale path =
    if leb max_entries (length es) then none else elim (copy_token max_path_length path) [
      | none ↦ none
      | some copied ↦ some (
          es
          ++ record {
            kind = directory;
            file_type = binary;
            path = copied;
            name = derive_name copied stale;
            data_lba = 0;
            size_bytes = 0;
          }
            ∷ [])
    ]

module _ {D : Type 0} where
  -- What an operation does with the new entries: it writes the manifest, or puts the old ones back.
  unfoldable pub settle : Device D → Context → List Entry → D → Bool × Context × D
  settle dev c entries hw =
      let c' = record c { entries = entries } in
      let (stored, hw') = persist_manifest dev c' hw in
      if not stored then (false, c, hw') else (true, c', hw')

  -- The part of `arfs_write_bytes` that stores the contents, for an entry that takes up `current`
  -- sectors from `current_lba` on: where they are stored, or `none` for failure.
  unfoldable pub store_contents : Device D → Context → ℕ → ℕ → D → List ℕ → Option ℕ × D
  store_contents dev c current current_lba hw contents =
      let sectors = sectors_for (length contents) in
      let place =
        if leb sectors current
        then some current_lba
        else allocate_sectors c dev.sector_count sectors in
      if sectors == 0 then (some 0, hw) else elim place [
        | none ↦ (none, hw)
        | some lba ↦
            (let (stored, hw') =
                block_write dev hw lba (u32 sectors) (padded write_buffer_capacity contents)
                  write_buffer_capacity in
              (if stored then some lba else none, hw'))
      ]

  -- The rest of `arfs_write_bytes`, for a path that has no entry.
  unfoldable pub write_new :
      Device D → Context → D → List ℕ → List ℕ → FileType → List ℕ → Bool × Context × D
  write_new dev c hw stale path kind contents =
      let (place, hw') = store_contents dev c 0 0 hw contents in
      if leb max_entries (length c.entries) then (false, c, hw) else elim place [
        | none ↦ (false, c, hw')
        | some lba ↦ elim (copy_token max_path_length path) [
          | none ↦ (false, c, hw')
          | some copied ↦
              settle dev c
                (c.entries
                  ++ record {
                    kind = file;
                    file_type = kind;
                    path = copied;
                    name = derive_name copied stale;
                    data_lba = lba;
                    size_bytes = length contents;
                  }
                    ∷ [])
                hw'
        ]
      ]

  -- The rest of `arfs_write_bytes`, for a path that has the entry `e`.
  unfoldable pub write_over :
      Device D → Context → D → Entry → FileType → List ℕ → Bool × Context × D
  write_over dev c hw e kind contents =
      let (place, hw') = store_contents dev c (entry_sector_count e) e.data_lba hw contents in
      if not (is_file e.kind) then (false, c, hw) else elim place [
        | none ↦ (false, c, hw')
        | some lba ↦
            settle dev c
              (replace_entry c.entries e.path (record e {
                kind = file;
                file_type = kind;
                data_lba = lba;
                size_bytes = length contents;
                name = derive_name e.path e.name;
              }))
              hw'
      ]

  -- `arfs_write_bytes` of contents that are not null
  unfoldable pub write_bytes :
      Device D → Context → D → List ℕ → List ℕ → FileType → List ℕ → Bool × Context × D
  write_bytes dev c hw stale path kind contents =
      if not (path_is_valid path)
        || (not (parent_directory_exists c.entries path)
            || (leb file_buffer_capacity (length contents)
                || ltb write_buffer_capacity (length contents)))
      then (false, c, hw)
      else elim (find_entry c.entries path) [
        | none ↦ write_new dev c hw stale path kind contents
        | some e ↦ write_over dev c hw e kind contents
      ]

  -- `arfs_create_directory`
  unfoldable pub create_directory : Device D → Context → D → List ℕ → List ℕ → Bool × Context × D
  create_directory dev c hw stale path =
      if not (path_is_valid path)
        || (not (is_none (find_entry c.entries path))
            || not (parent_directory_exists c.entries path))
      then (false, c, hw)
      else elim (add_directory_entry c.entries stale path) [
        | none ↦ (false, c, hw)
        | some entries ↦ settle dev c entries hw
      ]

  -- `arfs_remove`
  unfoldable pub remove : Device D → Context → D → List ℕ → Bool × Context × D
  remove dev c hw path = elim (find_entry c.entries path) [
    | none ↦ (false, c, hw)
    | some e ↦
        (if not (is_file e.kind) && has_child c.entries path
          then (false, c, hw)
          else settle dev c (drop_entry c.entries path) hw)
  ]

  -- `arfs_read_file`: the contents are the first `size_bytes` of the buffer.
  unfoldable pub read_file : Device D → Context → D → List ℕ → Option File
  read_file dev c hw path = elim (find_entry c.entries path) [
    | none ↦ none
    | some e ↦
        (let sectors = u64 (e.size_bytes + sector_size - 1) / sector_size in
          if not (is_file e.kind)
          then none
          else if e.size_bytes == 0
          then some (record { kind = e.file_type; contents = some [] })
          else if leb file_buffer_capacity e.size_bytes
          then none
          else if sectors == 0 || ltb uint32_max sectors
          then none
          else elim (block_read dev hw e.data_lba (u32 sectors) file_buffer_capacity) [
            | none ↦ none
            | some buffer ↦
                some (record { kind = e.file_type; contents = some (take e.size_bytes buffer) })
          ])
  ]
