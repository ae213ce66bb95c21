-- ===== src/Arfs/Keeps.antt =====
-- Every operation of kernel/arfs.c keeps the files apart: no two entries have a path or a sector in
-- common, and every file's sectors lie in the data area of the device.
use arwill.Prelude.{
  ℕ, ◌+◌, ◌^◌, ◌<◌, ◌≡◌, refl, sym, ◌⊎◌, inl, inr, Bool, true, false, not, if◌then◌else◌, leb,
  Bool-cases, Option, none, some, List, [], ◌∷◌, ◌++◌, length, All, arith,
}
use arwill.Prelude.Lists.{length-append, All-map}
use arwill.Files.{FileType, binary}
use arwill.Block.{Device}
use arwill.Arfs.Types.{
  file, Entry, Context, find_entry, entry_sector_count, max_entries, max_path_length,
}
use arwill.Arfs.Paths.{copy_token, derive_name}
use arwill.Arfs.Sectors.{OnDevice}
use arwill.Arfs.Manifest.{persist_manifest}
use arwill.Arfs.Ops.{sectors_for, settle, store_contents, write_new}
use arwill.Arfs.Entries.{AreApart, find_entry-none, append-All, append-Pairwise, map_two}
use arwill.Arfs.Placement.{IsValid, Placed, store_contents-Placed, Placed-OnDevice, Placed-AreApart}

-- What an operation leaves: a sound context, which is the old one unless the operation succeeds.
abbrev pub Kept : {D : Type 0} → ℕ → Context → Bool × Context × D → Type 0
Kept sectors c (took, c', hw) =
    IsValid sectors c' × (c'.data_lba ≡ c.data_lba) × (((took ≡ false) × (c' ≡ c)) ⊎ (took ≡ true))

-- the entry of a file that holds nothing
abbrev pub empty_file : List ℕ → Entry
empty_file path = record {
  kind = file;
  file_type = binary;
  path = path;
  name = [];
  data_lba = 0;
  size_bytes = 0;
}

pub append-IsValid :
    (sectors : ℕ) (c : Context) (new : Entry)
    → IsValid sectors c
    → leb max_entries (length c.entries) ≡ false
    → OnDevice c.data_lba sectors new
    → All (AreApart new) c.entries
    → IsValid sectors (record c { entries = c.entries ++ new ∷ [] })
append-IsValid sectors c new v room on apart = record {
  few = ground (arith, length-append c.entries (new ∷ []));
  stored = append-All (OnDevice c.data_lba sectors) c.entries new v.stored on;
  apart = append-Pairwise c.entries new apart v.apart;
}

module _ {D : Type 0} where
  pub same-Kept :
      (sectors : ℕ) (c : Context) (hw : D) → IsValid sectors c → Kept sectors c (false, c, hw)
  same-Kept sectors c hw v = (v, refl, inl (refl, refl))

  pub if-Kept :
      (sectors : ℕ) (c : Context) (b : Bool) (x y : Bool × Context × D)
      → (b ≡ true → Kept sectors c x)
      → (b ≡ false → Kept sectors c y)
      → Kept sectors c (if b then x else y)
  if-Kept sectors c true x y kx ky = kx refl
  if-Kept sectors c false x y kx ky = ky refl

  pub settle-Kept :
      (dev : Device D) (sectors : ℕ) (c : Context) (es : List Entry) (hw : D)
      → IsValid sectors c
      → IsValid sectors (record c { entries = es })
      → Kept sectors c (settle dev c es hw)
  unfolding settle
  settle-Kept dev sectors c es hw v v' = go (persist_manifest dev (record c { entries = es }) hw)
    where
      go :
          (o : Bool × D)
          → Kept sectors c
              (if not o.0 then (false, c, o.1) else (true, record c { entries = es }, o.1))
      go (false, hw') = same-Kept sectors c hw' v
      go (true, hw') = (v', refl, inr refl)

  pub write_new-Kept :
      (dev : Device D) (c : Context) (hw : D) (stale path : List ℕ) (kind : FileType)
      (contents : List ℕ)
      → dev.sector_count + 1 < 2 ^ 64
      → IsValid dev.sector_count c
      → find_entry c.entries path ≡ none
      → Kept dev.sector_count c (write_new dev c hw stale path kind contents)
  unfolding write_new copy_token entry_sector_count
  write_new-Kept dev c hw stale path kind contents word v fresh =
      if-Kept total c (leb max_entries (length c.entries)) _ _ (λ _. same-Kept total c hw v)
        (λ room.
          go room (store_contents dev c 0 0 hw contents)
            (store_contents-Placed dev c 0 0 hw contents))
    where
      total : ℕ
      total = dev.sector_count

      entry : ℕ → Entry
      entry lba = record {
        kind = file;
        file_type = kind;
        path = path;
        name = derive_name path stale;
        data_lba = lba;
        size_bytes = length contents;
      }

      new_path : All (AreApart (empty_file path)) c.entries
      new_path =
          All-map (λ f ne. (λ e. ne (sym e), inl refl)) c.entries
            (find_entry-none c.entries path fresh)

      placed :
          (lba : ℕ)
          → leb max_entries (length c.entries) ≡ false
          → Placed c total 0 0 (sectors_for (length contents)) (some lba)
          → IsValid total (record c { entries = c.entries ++ entry lba ∷ [] })
      placed lba room p =
          append-IsValid total c (entry lba) v room
            (Placed-OnDevice c total 0 0 (sectors_for (length contents)) lba (entry lba) word v
              (inl refl) p refl refl)
            (map_two (AreApart (empty_file path)) (AreApart (entry lba)) c.entries
              (Placed-AreApart c total 0 0 (sectors_for (length contents)) lba (empty_file path)
                (entry lba) word v refl refl p refl refl refl)
              new_path)

      go :
          leb max_entries (length c.entries) ≡ false
          → (o : Option ℕ × D) → Placed c total 0 0 (sectors_for (length contents)) o.0
          → let r : Bool × Context × D = elim (o.0) [
            | none ↦ (false, c, o.1)
            | some lba ↦ elim (copy_token max_path_length path) [
              | none ↦ (false, c, o.1)
              | some copied ↦
                  settle dev c
                    (c.entries
                      ++ record {
                        kind = file;
                        file_type = kind;
                        path = copied;
                        name = derive_name copied stale;
                        data_lba = lba;
                        size_bytes = length contents;
                      }
                        ∷ [])
                    o.1
            ]
          ] in
            Kept total c r
      go room (none, hw') p = same-Kept total c hw' v
      go room (some lba, hw') p = elim (Bool-cases (leb max_path_length (length path))) [
        | inl long ↦ rw long (same-Kept total c hw' v)
        | inr short ↦
            rw short
              (settle-Kept dev total c (c.entries ++ entry lba ∷ []) hw' v (placed lba room p))
      ]
