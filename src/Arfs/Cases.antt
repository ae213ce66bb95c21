-- ===== src/Arfs/Cases.antt =====
-- The ways in which `arfs_write_bytes` of kernel/arfs.c ends.
use arwill.Prelude.{
  ℕ, ◌≤◌, ◌≡◌, refl, inl, inr, Bool, true, false, not, if◌then◌else◌, leb, Bool-cases, Option, none,
  some, List, [], ◌∷◌, ◌++◌, length, arith,
}
use arwill.Files.{FileType}
use arwill.Block.{Device}
use arwill.Arfs.Types.{
  file, is_file, Entry, Context, find_entry, entry_sector_count, max_entries, max_path_length,
  write_buffer_capacity,
}
use arwill.Arfs.Paths.{copy_token, derive_name}
use arwill.Arfs.Ops.{replace_entry, settle, store_contents, write_new, write_over, write_bytes}

-- the entry of a file
abbrev pub file_entry : FileType → List ℕ → List ℕ → ℕ → ℕ → Entry
file_entry kind path name data_lba size_bytes = record {
  kind = file;
  file_type = kind;
  path = path;
  name = name;
  data_lba = data_lba;
  size_bytes = size_bytes;
}

module _ {D : Type 0} (dev : Device D) (c : Context) (hw : D) (kind : FileType) (contents : List ℕ)
    (P : Bool × Context × D → Type 0) where
  if-cases :
      (b : Bool) (x y : Bool × Context × D) → P x → (b ≡ false → P y) → P (if b then x else y)
  if-cases true x y px py = px
  if-cases false x y px py = py refl

  -- A write for a new path ends with the entries as they were, or with one more.
  pub write_new_cases :
      (stale path : List ℕ)
      → P (false, c, hw)
      → P (false, c, (store_contents dev c 0 0 hw contents).1)
      → ((lba : ℕ)
          → (store_contents dev c 0 0 hw contents).0 ≡ some lba
          → P (
              settle dev c
                (c.entries
                  ++ file_entry kind path (derive_name path stale) lba (length contents) ∷ [])
                ((store_contents dev c 0 0 hw contents).1)))
      → P (write_new dev c hw stale path kind contents)
  unfolding write_new copy_token
  write_new_cases stale path unchanged failed stored =
      if-cases (leb max_entries (length c.entries)) _ _ unchanged
        (λ _. go ((store_contents dev c 0 0 hw contents).0) stored)
    where
      hw' : D
      hw' = (store_contents dev c 0 0 hw contents).1

      go :
          (o : Option ℕ)
          → ((lba : ℕ)
              → o ≡ some lba
              → P (
                  settle dev c
                    (c.entries
                      ++ file_entry kind path (derive_name path stale) lba (length contents) ∷ [])
                    hw'))
          → let r : Bool × Context × D = elim o [
            | none ↦ (false, c, hw')
            | some lba ↦ elim (copy_token max_path_length path) [
              | none ↦ (false, c, hw')
              | some copied ↦
                  settle dev c
                    (c.entries
                      ++ file_entry kind copied (derive_name copied stale) lba (length contents)
                        ∷ [])
                    hw'
            ]
          ] in
            P r
      go none made = failed
      go (some lba) made = elim (Bool-cases (leb max_path_length (length path))) [
        | inl long ↦ rw long failed
        | inr short ↦ rw short (made lba refl)
      ]

  -- A write over an entry ends with the entries as they were, or with that one replaced.
  pub write_over_cases :
      (e : Entry)
      → P (false, c, hw)
      → P (false, c, (store_contents dev c (entry_sector_count e) e.data_lba hw contents).1)
      → ((lba : ℕ)
          → (store_contents dev c (entry_sector_count e) e.data_lba hw contents).0 ≡ some lba
          → P (
              settle dev c
                (replace_entry c.entries e.path
                  (file_entry kind e.path (derive_name e.path e.name) lba (length contents)))
                ((store_contents dev c (entry_sector_count e) e.data_lba hw contents).1)))
      → P (write_over dev c hw e kind contents)
  unfolding write_over
  write_over_cases e unchanged failed stored =
      if-cases (not (is_file e.kind)) _ _ unchanged
        (λ _. go ((store_contents dev c (entry_sector_count e) e.data_lba hw contents).0) stored)
    where
      hw' : D
      hw' = (store_contents dev c (entry_sector_count e) e.data_lba hw contents).1

      after : ℕ → Bool × Context × D
      after lba =
          settle dev c
            (replace_entry c.entries e.path
              (file_entry kind e.path (derive_name e.path e.name) lba (length contents)))
            hw'

      go :
          (o : Option ℕ)
          → ((lba : ℕ) → o ≡ some lba → P (after lba))
          → let r : Bool × Context × D = elim o [ none ↦ (false, c, hw') | some lba ↦ after lba ] in
            P r
      go none made = failed
      go (some lba) made = made lba refl

  -- A write that is not refused at once is one of these.
  pub write_bytes_cases :
      (stale path : List ℕ)
      → P (false, c, hw)
      → (length contents ≤ write_buffer_capacity
          → find_entry c.entries path ≡ none
          → P (write_new dev c hw stale path kind contents))
      → ((e : Entry)
          → length contents ≤ write_buffer_capacity
          → find_entry c.entries path ≡ some e
          → P (write_over dev c hw e kind contents))
      → P (write_bytes dev c hw stale path kind contents)
  unfolding write_bytes
  write_bytes_cases stale path unchanged fresh over =
      if-cases _ _ _ unchanged (λ checked. go (ground arith) (find_entry c.entries path) refl)
    where
      go :
          length contents ≤ write_buffer_capacity
          → (o : Option Entry) → find_entry c.entries path ≡ o
          → let r : Bool × Context × D = elim o [
            | none ↦ write_new dev c hw stale path kind contents
            | some e ↦ write_over dev c hw e kind contents
          ] in
            P r
      go small none found = fresh small found
      go small (some e) found = over e small found
