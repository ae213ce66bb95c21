-- ===== src/Arfs/ReadBack.antt =====
-- The manifest of kernel/arfs.c is written apart from the files, so that an operation's last step leaves
-- what they hold.
use arwill.Prelude.{
  ℕ, ◌+◌, ◌^◌, ◌≤◌, ◌<◌, ◌≡◌, refl, ap, ◌∙◌, ◌⊎◌, inl, inr, Bool, true, false, not, if◌then◌else◌,
  u32, Option, none, some, List, [], All, arith,
}
use arwill.Files.{File}
use arwill.Block.{Device, block_write}
use arwill.Arfs.Types.{Entry, Context, find_entry, entry_sector_count, manifest_capacity}
use arwill.Arfs.Sectors.{OnDevice}
use arwill.Arfs.Manifest.{padded, persist_manifest, write_entries}
use arwill.Arfs.Ops.{settle, read_file}
use arwill.Arfs.Entries.{find_entry-All}
use arwill.Arfs.Contents.{
  AreClear, IsDisk, read_entry, read_file-read_entry, read_entry-block_write,
}

-- the manifest lies in front of the data
abbrev pub IsInFront : Context → Type 0
IsInFront c = (c.manifest_sectors < 2 ^ 32) × (c.manifest_lba + c.manifest_sectors ≤ c.data_lba)

module _ {D : Type 0} (dev : Device D) (disk : IsDisk dev) (sectors : ℕ) where
  manifest-AreClear :
      (c : Context) (e : Entry)
      → IsInFront c
      → OnDevice c.data_lba sectors e
      → (entry_sector_count e ≡ 0)
        ⊎ AreClear c.manifest_lba (u32 c.manifest_sectors) e.data_lba (entry_sector_count e)
  manifest-AreClear c e (word, front) (inl nothing) = inl nothing
  manifest-AreClear c e (word, front) (inr (low, high)) = inr (inr (omega arith))

  -- Writing the manifest leaves the file that an entry stands for.
  persist_manifest-read_entry :
      (c : Context) (hw : D) (e : Entry)
      → IsInFront c
      → OnDevice c.data_lba sectors e
      → read_entry dev ((persist_manifest dev c hw).1) (some e) ≡ read_entry dev hw (some e)
  unfolding persist_manifest
  persist_manifest-read_entry c hw e front on = go (write_entries [] c.entries)
    where
      go :
          (o : Option (List ℕ))
          → let r : Bool × D = elim o [
            | none ↦ (false, hw)
            | some bytes ↦
                block_write dev hw c.manifest_lba
                  (u32 c.manifest_sectors)
                  (padded manifest_capacity bytes)
                  manifest_capacity
          ] in
            read_entry dev (r.1) (some e) ≡ read_entry dev hw (some e)
      go none = refl
      go (some bytes) =
          read_entry-block_write dev hw e c.manifest_lba (u32 c.manifest_sectors) manifest_capacity
            (padded manifest_capacity bytes) disk (manifest-AreClear c e front on)

  -- So it does for the entry that is found under a path.
  found-persist_manifest :
      (c : Context) (hw : D) (es : List Entry) (q : List ℕ)
      → IsInFront c
      → All (OnDevice c.data_lba sectors) es
      → read_entry dev ((persist_manifest dev c hw).1) (find_entry es q)
        ≡ read_entry dev hw (find_entry es q)
  found-persist_manifest c hw es q front on = go (find_entry es q) refl
    where
      go :
          (o : Option Entry)
          → find_entry es q ≡ o
          → read_entry dev ((persist_manifest dev c hw).1) o ≡ read_entry dev hw o
      go none found = refl
      go (some e) found =
          persist_manifest-read_entry c hw e front
            (find_entry-All (OnDevice c.data_lba sectors) es q e found on)

  -- The file of a path is `before` after an operation, succeed or not.
  abbrev pub Reads : List ℕ → Option File → Bool × Context × D → Type 0
  Reads q before (took, c, hw) = read_file dev c hw q ≡ before

  -- The file of a path is the one given after an operation that succeeds.
  abbrev pub Holds : List ℕ → File → Bool × Context × D → Type 0
  Holds path made (took, c, hw) = (took ≡ false) ⊎ (read_file dev c hw path ≡ some made)

  pub settle-Reads :
      (c : Context) (es : List Entry) (hw : D) (q : List ℕ) (before : Option File)
      → IsInFront c
      → All (OnDevice c.data_lba sectors) c.entries
      → All (OnDevice c.data_lba sectors) es
      → read_entry dev hw (find_entry c.entries q) ≡ before
      → find_entry es q ≡ find_entry c.entries q
      → Reads q before (settle dev c es hw)
  unfolding settle
  settle-Reads c es hw q before front old new same_file same_entry =
      go (persist_manifest dev c' hw) (found-persist_manifest c' hw c.entries q front old)
        (found-persist_manifest c' hw es q front new)
    where
      c' : Context
      c' = record c { entries = es }

      go :
          (o : Bool × D)
          → read_entry dev o.1 (find_entry c.entries q) ≡ read_entry dev hw (find_entry c.entries q)
          → read_entry dev o.1 (find_entry es q) ≡ read_entry dev hw (find_entry es q)
          → Reads q before
              (if not o.0 then (false, c, o.1) else (true, record c { entries = es }, o.1))
      go (false, hw') was is = read_file-read_entry dev c hw' q ∙ was ∙ same_file
      go (true, hw') was is =
          read_file-read_entry dev c' hw' q
          ∙ is
          ∙ ap (λ o. read_entry dev hw o) same_entry
          ∙ same_file

  pub settle-Holds :
      (c : Context) (es : List Entry) (hw : D) (path : List ℕ) (new : Entry) (made : File)
      → IsInFront c
      → All (OnDevice c.data_lba sectors) es
      → find_entry es path ≡ some new
      → read_entry dev hw (some new) ≡ some made
      → Holds path made (settle dev c es hw)
  unfolding settle
  settle-Holds c es hw path new made front on found holds =
      go (persist_manifest dev c' hw) (found-persist_manifest c' hw es path front on)
    where
      c' : Context
      c' = record c { entries = es }

      go :
          (o : Bool × D)
          → read_entry dev o.1 (find_entry es path) ≡ read_entry dev hw (find_entry es path)
          → Holds path made
              (if not o.0 then (false, c, o.1) else (true, record c { entries = es }, o.1))
      go (false, hw') is = inl refl
      go (true, hw') is =
          inr (
            read_file-read_entry dev c' hw' path ∙ is ∙ ap (λ o. read_entry dev hw o) found ∙ holds)
