-- ===== src/Arfs/Contents.antt =====
-- What the files of kernel/arfs.c hold, on a device that keeps what it is given.
use arwill.Prelude.{
  ℕ, ◌+◌, ◌-◌, ◌*◌, ◌/◌, ◌≤◌, ◌<◌, ◌≡◌, refl, ap, ◌⊎◌, inl, inr, true, false, not, ◌||◌,
  if◌then◌else◌, ◌==◌, ltb, leb, u32, u64, uint32_max, Bool-cases, Option, none, some, List, [],
  take, arith,
}
use arwill.Files.{File}
use arwill.Block.{Device, block_read, block_write}
use arwill.Arfs.Types.{
  is_file, Entry, Context, find_entry, entry_sector_count, sector_size, file_buffer_capacity,
}
use arwill.Arfs.Ops.{read_file}

-- two runs of sectors have none in common
abbrev pub AreClear : ℕ → ℕ → ℕ → ℕ → Type 0
AreClear lba count first n = (first + n ≤ lba) ⊎ (lba + count ≤ first)

-- A device that keeps what it is given: a read of sectors that were written gives their bytes, and a
-- write, successful or not, leaves the other sectors as they are.
pub record IsDisk {D : Type 0} (dev : Device D) : Type 0 where
  pub written :
      (hw : D) (lba count size room : ℕ) (bytes : List ℕ)
      → count * sector_size ≤ room
      → (block_write dev hw lba count bytes size).0 ≡ true
      → block_read dev ((block_write dev hw lba count bytes size).1) lba count room
        ≡ some (take (count * sector_size) bytes)
  pub others :
      (hw : D) (lba count size first n room : ℕ) (bytes : List ℕ)
      → AreClear lba count first n
      → block_read dev ((block_write dev hw lba count bytes size).1) first n room
        ≡ block_read dev hw first n room

-- the file of an entry, of the bytes in the buffer
abbrev pub as_file : Entry → Option (List ℕ) → Option File
as_file e none = none
as_file e (some buffer) =
    some (record { kind = e.file_type; contents = some (take e.size_bytes buffer) })

pub sectors_of_file :
    (e : Entry)
    → not (is_file e.kind) ≡ false
    → (e.size_bytes == 0) ≡ false
    → leb file_buffer_capacity e.size_bytes ≡ false
    → let sectors = u64 (e.size_bytes + sector_size - 1) / sector_size in
      (entry_sector_count e ≡ sectors)
      × (u32 sectors ≡ sectors)
      × ((sectors == 0 || ltb uint32_max sectors) ≡ false)
      × (0 < sectors)
      × (sectors * sector_size ≤ file_buffer_capacity)
      × (e.size_bytes ≤ sectors * sector_size)
unfolding entry_sector_count
sectors_of_file e there more short =
    (rw (there, more) refl, ground arith, ground arith, ground arith, ground arith, ground arith)

apart_words :
    (e : Entry) (lba count sectors : ℕ)
    → entry_sector_count e ≡ sectors
    → u32 sectors ≡ sectors
    → 0 < sectors
    → (entry_sector_count e ≡ 0) ⊎ AreClear lba count e.data_lba (entry_sector_count e)
    → AreClear lba count e.data_lba (u32 sectors)
apart_words e lba count sectors counted whole pos (inl nothing) = absurd (omega arith)
apart_words e lba count sectors counted whole pos (inr (inl a)) = inl (omega arith)
apart_words e lba count sectors counted whole pos (inr (inr a)) = inr (omega arith)

module _ {D : Type 0} where
  -- `arfs_read_file` behind its call of `find_entry`
  abbrev pub read_entry : Device D → D → Option Entry → Option File
  read_entry dev hw none = none
  read_entry dev hw (some e) =
      let sectors = u64 (e.size_bytes + sector_size - 1) / sector_size in
      if not (is_file e.kind)
      then none
      else if e.size_bytes == 0
      then some (record { kind = e.file_type; contents = some [] })
      else if leb file_buffer_capacity e.size_bytes
      then none
      else if sectors == 0 || ltb uint32_max sectors
      then none
      else as_file e (block_read dev hw e.data_lba (u32 sectors) file_buffer_capacity)

  pub read_file-read_entry :
      (dev : Device D) (c : Context) (hw : D) (path : List ℕ)
      → read_file dev c hw path ≡ read_entry dev hw (find_entry c.entries path)
  unfolding read_file
  read_file-read_entry dev c hw path = go (find_entry c.entries path)
    where
      go :
          (o : Option Entry)
          → let r : Option File = elim o [
            | none ↦ none
            | some e ↦
                (let sectors = u64 (e.size_bytes + sector_size - 1) / sector_size in
                  if not (is_file e.kind)
                  then none
                  else if e.size_bytes == 0
                  then some (record { kind = e.file_type; contents = some [] })
                  else if leb file_buffer_capacity e.size_bytes
                  then none
                  else if sectors == 0 || ltb uint32_max sectors
                  then none
                  else elim (block_read dev hw e.data_lba (u32 sectors) file_buffer_capacity) [
                    | none ↦ none
                    | some buffer ↦
                        some (record {
                          kind = e.file_type;
                          contents = some (take e.size_bytes buffer);
                        })
                  ])
          ] in
            r ≡ read_entry dev hw o
      go none = refl
      go (some e) = refl

  -- The contents of an entry are those that they were where a write does not touch its sectors.
  pub read_entry-block_write :
      (dev : Device D) (hw : D) (e : Entry) (lba count size : ℕ) (bytes : List ℕ)
      → IsDisk dev
      → (entry_sector_count e ≡ 0) ⊎ AreClear lba count e.data_lba (entry_sector_count e)
      → read_entry dev ((block_write dev hw lba count bytes size).1) (some e)
        ≡ read_entry dev hw (some e)
  read_entry-block_write dev hw e lba count size bytes disk clear =
      elim (Bool-cases (not (is_file e.kind))) [
        | inl none_there ↦ rw none_there refl
        | inr there ↦ elim (Bool-cases (e.size_bytes == 0)) [
          | inl empty ↦ rw (there, empty) refl
          | inr more ↦ elim (Bool-cases (leb file_buffer_capacity e.size_bytes)) [
            | inl long ↦ rw (there, more, long) refl
            | inr short ↦
                let sectors = u64 (e.size_bytes + sector_size - 1) / sector_size in
                let (counted, whole, in_range, pos, room, enough) =
                  sectors_of_file e there more short in
                rw (there, more, short, in_range)
                  (ap (as_file e) (
                    disk.others hw lba count size e.data_lba (u32 sectors) file_buffer_capacity
                      bytes (apart_words e lba count sectors counted whole pos clear)))
          ]
        ]
      ]
