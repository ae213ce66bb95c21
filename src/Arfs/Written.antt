-- ===== src/Arfs/Written.antt =====
-- What the two ways in which `arfs_write_bytes` of kernel/arfs.c ends leave to be read.
use arwill.Prelude.{
  ℕ, ◌+◌, ◌^◌, ◌≤◌, ◌<◌, ◌≡◌, ◌≢◌, refl, ap, sym, ◌∙◌, ◌⊎◌, inl, inr, subst, Option, none, some,
  List, length, All, arith,
}
use mathlib.Core.Option.{some-injective}
use arwill.Files.{FileType}
use arwill.Block.{Device}
use arwill.Arfs.Types.{Entry, Context, find_entry, entry_sector_count, write_buffer_capacity}
use arwill.Arfs.Paths.{derive_name}
use arwill.Arfs.Sectors.{OnDevice, allocate_sectors_lem}
use arwill.Arfs.Ops.{
  sectors_for, replace_entry, settle, store_contents, read_file, write_new, write_over,
}
use arwill.Arfs.Entries.{AreApart, find_entry-All, find_entry_path, append-All, replace_entry-All}
use arwill.Arfs.Found.{
  find_entry-append_other, find_entry-append_self, find_entry-replace_other,
  find_entry-replace_self, find_entry-AreApart,
}
use arwill.Arfs.Placement.{IsValid, Placed, store_contents-Placed, Placed-OnDevice}
use arwill.Arfs.Keeps.{empty_file}
use arwill.Arfs.Contents.{AreClear, IsDisk, read_entry, read_file-read_entry}
use arwill.Arfs.Stored.{store_contents_others, HoldsAt, store_contents-HoldsAt}
use arwill.Arfs.Cases.{file_entry, write_new_cases, write_over_cases}
use arwill.Arfs.ReadBack.{IsInFront, Reads, Holds, settle-Reads, settle-Holds}

-- Contents that are placed where the entry `e` may be put are clear of what `e` is apart from.
Placed-AreClear :
    (c : Context) (sectors need lba : ℕ) (e f : Entry) (q : List ℕ)
    → sectors + 1 < 2 ^ 64
    → IsValid sectors c
    → 0 < need
    → Placed c sectors (entry_sector_count e) e.data_lba need (some lba)
    → AreApart e f
    → find_entry c.entries q ≡ some f
    → (entry_sector_count f ≡ 0) ⊎ AreClear lba need f.data_lba (entry_sector_count f)
Placed-AreClear c sectors need lba e f q word v pos (inl nothing) (_, sep) found =
    absurd (omega arith)
Placed-AreClear c sectors need lba e f q word v pos (inr (inl (fits, at))) (_, sep) found =
    ground arith
Placed-AreClear c sectors need lba e f q word v pos (inr (inr made)) apart found =
    let (_, _, _, clear) = allocate_sectors_lem c sectors need lba word v.stored made in
    find_entry-All
      (λ g. (entry_sector_count g ≡ 0) ⊎ AreClear lba need g.data_lba (entry_sector_count g))
      c.entries q f found clear

module _ {D : Type 0} (dev : Device D) (disk : IsDisk dev) (c : Context) (hw : D) (kind : FileType)
    (contents : List ℕ) (small : length contents ≤ write_buffer_capacity)
    (word : dev.sector_count + 1 < 2 ^ 64) (v : IsValid dev.sector_count c)
    (front : IsInFront c) where
  abbrev need : ℕ
  need = sectors_for (length contents)

  -- the device, and where the contents are, once they are stored for the entry `e`
  abbrev after : Entry → Option ℕ × D
  after e = store_contents dev c (entry_sector_count e) e.data_lba hw contents

  others_left :
      (e : Entry) (q : List ℕ)
      → ((f : Entry) → find_entry c.entries q ≡ some f → AreApart e f)
      → read_entry dev ((after e).1) (find_entry c.entries q)
        ≡ read_entry dev hw (find_entry c.entries q)
  others_left e q apart = go (find_entry c.entries q) refl
    where
      go :
          (o : Option Entry)
          → find_entry c.entries q ≡ o
          → read_entry dev ((after e).1) o ≡ read_entry dev hw o
      go none found = refl
      go (some f) found =
          store_contents_others dev disk c (entry_sector_count e) e.data_lba hw contents small f
            (λ lba pos placed.
              Placed-AreClear c dev.sector_count need lba e f q word v pos placed (apart f found)
                found)

  which_place :
      (e : Entry) (lba : ℕ)
      → (after e).0 ≡ some lba
      → Placed c dev.sector_count (entry_sector_count e) e.data_lba need (some lba)
  which_place e lba at =
      subst (λ o. Placed c dev.sector_count (entry_sector_count e) e.data_lba need o) at
        (store_contents-Placed dev c (entry_sector_count e) e.data_lba hw contents)

  holds_at :
      (e : Entry) (path name : List ℕ) (lba : ℕ)
      → (after e).0 ≡ some lba
      → read_entry dev ((after e).1) (some (file_entry kind path name lba (length contents)))
        ≡ some (record { kind = kind; contents = some contents })
  holds_at e path name lba at =
      go (after e)
        (store_contents-HoldsAt dev disk c (entry_sector_count e) e.data_lba hw contents small kind
          path name)
        at
    where
      go :
          (o : Option ℕ × D)
          → HoldsAt dev disk c (entry_sector_count e) e.data_lba hw contents small kind path name o
          → o.0 ≡ some lba
          → read_entry dev o.1 (some (file_entry kind path name lba (length contents)))
            ≡ some (record { kind = kind; contents = some contents })
      go (none, hw') h same = cc
      go (some l, hw') h same =
          subst
            (λ k.
              read_entry dev hw' (some (file_entry kind path name k (length contents)))
              ≡ some (record { kind = kind; contents = some contents }))
            (some-injective l lba same) h

  on_device :
      (e : Entry) (path name : List ℕ) (lba : ℕ)
      → (entry_sector_count e ≡ 0)
        ⊎ ((c.data_lba ≤ e.data_lba) × (e.data_lba + entry_sector_count e ≤ dev.sector_count))
      → (after e).0 ≡ some lba
      → OnDevice c.data_lba dev.sector_count (file_entry kind path name lba (length contents))
  unfolding entry_sector_count
  on_device e path name lba old at =
      Placed-OnDevice c dev.sector_count (entry_sector_count e) e.data_lba need lba
        (file_entry kind path name lba (length contents)) word v old (which_place e lba at) refl
        refl

  -- the same file of `q`, through `read_file`
  left :
      (e : Entry) (q : List ℕ)
      → ((f : Entry) → find_entry c.entries q ≡ some f → AreApart e f)
      → read_file dev c ((after e).1) q ≡ read_file dev c hw q
  left e q apart =
      read_file-read_entry dev c ((after e).1) q
      ∙ others_left e q apart
      ∙ sym (read_file-read_entry dev c hw q)

  pub write_new-Reads :
      (stale path q : List ℕ)
      → find_entry c.entries path ≡ none
      → path ≢ q
      → Reads dev disk dev.sector_count q
          (read_file dev c hw q)
          (write_new dev c hw stale path kind contents)
  unfolding entry_sector_count
  write_new-Reads stale path q fresh ne =
      write_new_cases dev c hw kind contents
        (Reads dev disk dev.sector_count q (read_file dev c hw q)) stale path refl
        (left (empty_file path) q apart)
        (λ lba at.
          settle-Reads dev disk dev.sector_count c _ ((after (empty_file path)).1) q
            (read_file dev c hw q) front v.stored
            (append-All (OnDevice c.data_lba dev.sector_count) c.entries _ v.stored
              (on_device (empty_file path) path (derive_name path stale) lba (inl refl) at))
            (others_left (empty_file path) q apart ∙ sym (read_file-read_entry dev c hw q))
            (find_entry-append_other c.entries _ q ne))
    where
      apart : (f : Entry) → find_entry c.entries q ≡ some f → AreApart (empty_file path) f
      apart f found = (λ p. ne (p ∙ find_entry_path c.entries q f found), inl refl)

  pub write_new-Holds :
      (stale path : List ℕ)
      → find_entry c.entries path ≡ none
      → Holds dev disk dev.sector_count path
          (record { kind = kind; contents = some contents })
          (write_new dev c hw stale path kind contents)
  unfolding entry_sector_count
  write_new-Holds stale path fresh =
      write_new_cases dev c hw kind contents
        (Holds dev disk dev.sector_count path (record { kind = kind; contents = some contents }))
        stale path (inl refl) (inl refl)
        (λ lba at.
          settle-Holds dev disk dev.sector_count c _ ((after (empty_file path)).1) path
            (file_entry kind path (derive_name path stale) lba (length contents))
            (record { kind = kind; contents = some contents }) front
            (append-All (OnDevice c.data_lba dev.sector_count) c.entries _ v.stored
              (on_device (empty_file path) path (derive_name path stale) lba (inl refl) at))
            (find_entry-append_self c.entries _ path fresh refl)
            (holds_at (empty_file path) path (derive_name path stale) lba at))

  module _ (path : List ℕ) (e : Entry) (found : find_entry c.entries path ≡ some e) where
    here : find_entry c.entries e.path ≡ some e
    here = ap (λ q. find_entry c.entries q) (find_entry_path c.entries path e found) ∙ found

    new_list :
        (lba : ℕ)
        → (after e).0 ≡ some lba
        → All (OnDevice c.data_lba dev.sector_count) (
            replace_entry c.entries e.path
              (file_entry kind e.path (derive_name e.path e.name) lba (length contents)))
    new_list lba at =
        replace_entry-All (OnDevice c.data_lba dev.sector_count) c.entries e.path _
          (on_device e e.path (derive_name e.path e.name) lba
            (find_entry-All (OnDevice c.data_lba dev.sector_count) c.entries path e found v.stored)
            at)
          v.stored

    pub write_over-Reads :
        (q : List ℕ)
        → path ≢ q
        → Reads dev disk dev.sector_count q
            (read_file dev c hw q)
            (write_over dev c hw e kind contents)
    write_over-Reads q ne =
        write_over_cases dev c hw kind contents
          (Reads dev disk dev.sector_count q (read_file dev c hw q)) e refl (left e q apart)
          (λ lba at.
            settle-Reads dev disk dev.sector_count c _ ((after e).1) q (read_file dev c hw q) front
              v.stored (new_list lba at)
              (others_left e q apart ∙ sym (read_file-read_entry dev c hw q))
              (find_entry-replace_other c.entries e.path _ q refl
                (λ p. ne (sym (find_entry_path c.entries path e found) ∙ p))))
      where
        apart : (f : Entry) → find_entry c.entries q ≡ some f → AreApart e f
        apart f there = find_entry-AreApart c.entries path q e f v.apart found there ne

    pub write_over-Holds :
        Holds dev disk dev.sector_count path
          (record { kind = kind; contents = some contents })
          (write_over dev c hw e kind contents)
    write_over-Holds =
        write_over_cases dev c hw kind contents
          (Holds dev disk dev.sector_count path (record { kind = kind; contents = some contents }))
          e (inl refl) (inl refl)
          (λ lba at.
            subst
              (λ p.
                Holds dev disk dev.sector_count p (record { kind = kind; contents = some contents })
                  (settle dev c
                    (replace_entry c.entries e.path
                      (file_entry kind e.path (derive_name e.path e.name) lba (length contents)))
                    ((after e).1)))
              (find_entry_path c.entries path e found)
              (settle-Holds dev disk dev.sector_count c _ ((after e).1) e.path
                (file_entry kind e.path (derive_name e.path e.name) lba (length contents))
                (record { kind = kind; contents = some contents }) front (new_list lba at)
                (find_entry-replace_self c.entries e.path e _ here refl)
                (holds_at e e.path (derive_name e.path e.name) lba at)))
