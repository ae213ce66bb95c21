-- ===== src/Arfs/Steps.antt =====
-- Sequences of operations of kernel/arfs.c keep the files apart.
use arwill.Prelude.{
  ℕ, ◌+◌, ◌^◌, ◌<◌, ◌≡◌, refl, ap, sym, ◌∙◌, ◌⊎◌, inl, inr, Bool, true, false, not, ◌&&◌,
  if◌then◌else◌, leb, is_none, Bool-cases, Option, none, some, List, [], ◌∷◌, ◌++◌, length, arith,
}
use arwill.Prelude.Lists.{All-map}
use arwill.Files.{FileType, binary}
use arwill.Block.{Device}
use arwill.Arfs.Types.{
  directory, file, is_file, Entry, Context, find_entry, entry_sector_count, max_entries,
  max_path_length,
}
use arwill.Arfs.Paths.{copy_token, derive_name}
use arwill.Arfs.Sectors.{OnDevice}
use arwill.Arfs.Ops.{
  sectors_for, replace_entry, drop_entry, has_child, add_directory_entry, settle, store_contents,
  write_new, write_over, write_bytes, create_directory, remove,
}
use arwill.Arfs.Entries.{
  find_entry-All, find_entry_path, find_entry-none, replace_entry-All, drop_entry-All,
  length-replace_entry, length-drop_entry, replace_entry-Pairwise, drop_entry-Pairwise,
}
use arwill.Arfs.Placement.{IsValid, Placed, store_contents-Placed, Placed-OnDevice, Placed-AreApart}
use arwill.Arfs.Keeps.{Kept, same-Kept, if-Kept, settle-Kept, append-IsValid, write_new-Kept}

-- What a mounted file system may be asked for.
pub data Request : Type 0 where
  write : List ℕ → List ℕ → FileType → List ℕ → Request
  create : List ℕ → List ℕ → Request
  delete : List ℕ → Request

module _ {D : Type 0} where
  write_over-Kept :
      (dev : Device D) (c : Context) (hw : D) (path : List ℕ) (e : Entry) (kind : FileType)
      → (contents : List ℕ) → dev.sector_count + 1 < 2 ^ 64
      → IsValid dev.sector_count c
      → find_entry c.entries path ≡ some e
      → Kept dev.sector_count c (write_over dev c hw e kind contents)
  unfolding write_over entry_sector_count
  write_over-Kept dev c hw path e kind contents word v found =
      if-Kept total c (not (is_file e.kind)) _ _ (λ _. same-Kept total c hw v)
        (λ _.
          go (store_contents dev c (entry_sector_count e) e.data_lba hw contents)
            (store_contents-Placed dev c (entry_sector_count e) e.data_lba hw contents))
    where
      total : ℕ
      total = dev.sector_count

      entry : ℕ → Entry
      entry lba = record e {
        kind = file;
        file_type = kind;
        data_lba = lba;
        size_bytes = length contents;
        name = derive_name e.path e.name;
      }

      here : find_entry c.entries e.path ≡ some e
      here = ap (λ q. find_entry c.entries q) (find_entry_path c.entries path e found) ∙ found

      old : OnDevice c.data_lba total e
      old = find_entry-All (OnDevice c.data_lba total) c.entries path e found v.stored

      placed :
          (lba : ℕ)
          → Placed c total
              (entry_sector_count e)
              e.data_lba
              (sectors_for (length contents))
              (some lba)
          → IsValid total (record c { entries = replace_entry c.entries e.path (entry lba) })
      placed lba p = record {
        few = omega (arith, length-replace_entry c.entries e.path (entry lba), v.few);
        stored =
            replace_entry-All (OnDevice c.data_lba total) c.entries e.path (entry lba)
              (Placed-OnDevice c total (entry_sector_count e) e.data_lba
                (sectors_for (length contents)) lba (entry lba) word v old p refl refl)
              v.stored;
        apart =
            replace_entry-Pairwise c.entries e.path e (entry lba) here
              (Placed-AreApart c total (entry_sector_count e) e.data_lba
                (sectors_for (length contents)) lba e (entry lba) word v refl refl p refl refl refl)
              v.apart;
      }

      go :
          (o : Option ℕ × D)
          → Placed c total (entry_sector_count e) e.data_lba (sectors_for (length contents)) o.0
          → let r : Bool × Context × D = elim (o.0) [
            | none ↦ (false, c, o.1)
            | some lba ↦
                settle dev c
                  (replace_entry c.entries e.path (record e {
                    kind = file;
                    file_type = kind;
                    data_lba = lba;
                    size_bytes = length contents;
                    name = derive_name e.path e.name;
                  }))
                  o.1
          ] in
            Kept total c r
      go (none, hw') p = same-Kept total c hw' v
      go (some lba, hw') p =
          settle-Kept dev total c (replace_entry c.entries e.path (entry lba)) hw' v (placed lba p)

  write_bytes-Kept :
      (dev : Device D) (c : Context) (hw : D) (stale path : List ℕ) (kind : FileType)
      (contents : List ℕ)
      → dev.sector_count + 1 < 2 ^ 64
      → IsValid dev.sector_count c
      → Kept dev.sector_count c (write_bytes dev c hw stale path kind contents)
  unfolding write_bytes
  write_bytes-Kept dev c hw stale path kind contents word v =
      if-Kept dev.sector_count c _ _ _ (λ _. same-Kept dev.sector_count c hw v)
        (λ _. go (find_entry c.entries path) refl)
    where
      go :
          (o : Option Entry)
          → find_entry c.entries path ≡ o
          → let r : Bool × Context × D = elim o [
            | none ↦ write_new dev c hw stale path kind contents
            | some e ↦ write_over dev c hw e kind contents
          ] in
            Kept dev.sector_count c r
      go none fresh = write_new-Kept dev c hw stale path kind contents word v fresh
      go (some e) found = write_over-Kept dev c hw path e kind contents word v found

  create_directory-Kept :
      (dev : Device D) (c : Context) (hw : D) (stale path : List ℕ)
      → IsValid dev.sector_count c
      → Kept dev.sector_count c (create_directory dev c hw stale path)
  unfolding create_directory add_directory_entry copy_token entry_sector_count
  create_directory-Kept dev c hw stale path v =
      if-Kept dev.sector_count c _ _ _ (λ _. same-Kept dev.sector_count c hw v)
        (λ checked.
          go (find_entry c.entries path) refl (ground arith)
            (Bool-cases (leb max_entries (length c.entries)))
            (Bool-cases (leb max_path_length (length path))))
    where
      entry : Entry
      entry = record {
        kind = directory;
        file_type = binary;
        path = path;
        name = derive_name path stale;
        data_lba = 0;
        size_bytes = 0;
      }

      added : Option (List Entry) → Bool × Context × D
      added o = elim o [ none ↦ (false, c, hw) | some entries ↦ settle dev c entries hw ]

      go :
          (o : Option Entry)
          → find_entry c.entries path ≡ o
          → is_none o ≡ true
          → (leb max_entries (length c.entries) ≡ true)
            ⊎ (leb max_entries (length c.entries) ≡ false)
          → (leb max_path_length (length path) ≡ true) ⊎ (leb max_path_length (length path) ≡ false)
          → Kept dev.sector_count c (added (add_directory_entry c.entries stale path))
      go (some e) found fresh full long = cc
      go none found fresh (inl full) long = rw full (same-Kept dev.sector_count c hw v)
      go none found fresh (inr room) (inl long) =
          rw (room, long) (same-Kept dev.sector_count c hw v)
      go none found fresh (inr room) (inr short) =
          rw (room, short)
            (settle-Kept dev dev.sector_count c (c.entries ++ entry ∷ []) hw v (
              append-IsValid dev.sector_count c entry v room (inl refl) (
                All-map (λ f ne. (λ e. ne (sym e), inl refl)) c.entries
                  (find_entry-none c.entries path found))))

  remove-Kept :
      (dev : Device D) (c : Context) (hw : D) (path : List ℕ)
      → IsValid dev.sector_count c
      → Kept dev.sector_count c (remove dev c hw path)
  unfolding remove
  remove-Kept dev c hw path v = go (find_entry c.entries path)
    where
      removed : IsValid dev.sector_count (record c { entries = drop_entry c.entries path })
      removed = record {
        few = omega (arith, length-drop_entry c.entries path, v.few);
        stored = drop_entry-All (OnDevice c.data_lba dev.sector_count) c.entries path v.stored;
        apart = drop_entry-Pairwise c.entries path v.apart;
      }

      go :
          (o : Option Entry)
          → let r : Bool × Context × D = elim o [
            | none ↦ (false, c, hw)
            | some e ↦
                (if not (is_file e.kind) && has_child c.entries path
                  then (false, c, hw)
                  else settle dev c (drop_entry c.entries path) hw)
          ] in
            Kept dev.sector_count c r
      go none = same-Kept dev.sector_count c hw v
      go (some e) =
          if-Kept dev.sector_count c _ _ _ (λ _. same-Kept dev.sector_count c hw v)
            (λ _. settle-Kept dev dev.sector_count c (drop_entry c.entries path) hw v removed)

  -- the operation that a request names
  abbrev pub perform : Device D → Request → Context → D → Bool × Context × D
  perform dev (write stale path kind contents) c hw = write_bytes dev c hw stale path kind contents
  perform dev (create stale path) c hw = create_directory dev c hw stale path
  perform dev (delete path) c hw = remove dev c hw path

  -- Whatever the device answers, a request to a sound file system leaves a sound one with the data area
  -- where it was, which is the old one where the request fails.
  pub perform-Kept :
      (dev : Device D) (r : Request) (c : Context) (hw : D)
      → dev.sector_count + 1 < 2 ^ 64
      → IsValid dev.sector_count c
      → Kept dev.sector_count c (perform dev r c hw)
  perform-Kept dev (write stale path kind contents) c hw word v =
      write_bytes-Kept dev c hw stale path kind contents word v
  perform-Kept dev (create stale path) c hw word v = create_directory-Kept dev c hw stale path v
  perform-Kept dev (delete path) c hw word v = remove-Kept dev c hw path v

  -- the requests of a list, one after the other
  abbrev pub perform_all : Device D → List Request → Context → D → Context × D
  perform_all dev [] c hw = (c, hw)
  perform_all dev (r ∷ rs) c hw =
      perform_all dev rs ((perform dev r c hw).1) ((perform dev r c hw).2)

  -- After any requests to a sound file system on a device of at most 2^64 - 2 sectors, whichever fail
  -- and whatever the device answers, there are at most 24 entries, every file's sectors lie in the data
  -- area of the device, and no two entries have a path or a sector in common.
  pub perform_all-IsValid :
      (dev : Device D) (rs : List Request) (c : Context) (hw : D)
      → dev.sector_count + 1 < 2 ^ 64
      → IsValid dev.sector_count c
      → IsValid dev.sector_count ((perform_all dev rs c hw).0)
  perform_all-IsValid dev [] c hw word v = v
  perform_all-IsValid dev (r ∷ rs) c hw word v =
      perform_all-IsValid dev rs _ _ word (perform-Kept dev r c hw word v).0
