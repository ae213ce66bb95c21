-- ===== src/Arfs/Stored.antt =====
-- What `store_contents` of kernel/arfs.c leaves on the device: the new contents where it says, and the
-- other files as they were.
use arwill.Prelude.{
  ℕ, zero, suc, ◌+◌, ◌-◌, ◌*◌, ◌≤◌, ◌<◌, ◌≡◌, refl, ap, sym, ◌∙◌, ◌⊎◌, subst, Bool, true, false,
  if◌then◌else◌, ◌==◌, leb, ◌/◌, u32, u64, Option, none, some, List, [], ◌∷◌, ◌++◌, length, take,
  replicate, arith,
}
use arwill.Files.{FileType}
use arwill.Block.{Device, block_read, block_write}
use arwill.Arfs.Types.{
  Entry, Context, entry_sector_count, sector_size, file_buffer_capacity, write_buffer_capacity,
}
use arwill.Arfs.Manifest.{padded}
use arwill.Arfs.Ops.{sectors_for, store_contents}
use arwill.Arfs.Placement.{Placed, store_contents_cases}
use arwill.Arfs.Contents.{
  AreClear, IsDisk, read_entry, as_file, read_entry-block_write, sectors_of_file,
}
use arwill.Arfs.Cases.{file_entry}

empty_of_length : (xs : List ℕ) → length xs ≡ 0 → [] ≡ xs
empty_of_length [] h = refl
empty_of_length (x ∷ xs) h = absurd (omega arith)

take-take-append :
    (n : ℕ) (xs ys : List ℕ) → length xs ≤ n → take (length xs) (take n (xs ++ ys)) ≡ xs
take-take-append n [] ys h = refl
take-take-append zero (x ∷ xs) ys h = absurd (omega arith)
take-take-append (suc n) (x ∷ xs) ys h = ap (λ l. x ∷ l) (take-take-append n xs ys (omega arith))

small_words :
    (contents : List ℕ)
    → length contents ≤ write_buffer_capacity
    → (sectors_for (length contents) ≤ 16)
      × (length contents ≤ sectors_for (length contents) * sector_size)
small_words contents small = (ground arith, ground arith)

module _ {D : Type 0} (dev : Device D) (disk : IsDisk dev) (c : Context) (current current_lba : ℕ)
    (hw : D) (contents : List ℕ) (small : length contents ≤ write_buffer_capacity) where
  -- A file is left as it is by the storing of contents that are placed apart from it.
  pub store_contents_others :
      (e : Entry)
      → ((lba : ℕ)
          → 0 < sectors_for (length contents)
          → Placed c dev.sector_count current current_lba (sectors_for (length contents)) (some lba)
          → (entry_sector_count e ≡ 0)
            ⊎ AreClear lba (sectors_for (length contents)) e.data_lba (entry_sector_count e))
      → read_entry dev ((store_contents dev c current current_lba hw contents).1) (some e)
        ≡ read_entry dev hw (some e)
  store_contents_others e apart =
      store_contents_cases dev c current current_lba hw contents
        (λ o. read_entry dev o.1 (some e) ≡ read_entry dev hw (some e)) (λ _. refl) refl
        (λ lba pos placed o e_o.
          subst (λ (o : Bool × D). read_entry dev o.1 (some e) ≡ read_entry dev hw (some e)) e_o
            (read_entry-block_write dev hw e lba (u32 need) write_buffer_capacity
              (padded write_buffer_capacity contents) disk
              (subst
                (λ n. (entry_sector_count e ≡ 0) ⊎ AreClear lba n e.data_lba (entry_sector_count e))
                (sym word) (apart lba pos placed))))
    where
      need : ℕ
      need = sectors_for (length contents)

      word : u32 need ≡ need
      word = let (few, _) = small_words contents small in omega arith

  -- what is read of the file, stored where the result says
  abbrev pub HoldsAt : FileType → List ℕ → List ℕ → Option ℕ × D → Type 0
  HoldsAt kind path name (none, hw') = Unit
  HoldsAt kind path name (some lba, hw') =
      read_entry dev hw' (some (file_entry kind path name lba (length contents)))
      ≡ some (record { kind = kind; contents = some contents })

  pub store_contents-HoldsAt :
      (kind : FileType) (path name : List ℕ)
      → HoldsAt kind path name (store_contents dev c current current_lba hw contents)
  store_contents-HoldsAt kind path name =
      store_contents_cases dev c current current_lba hw contents (HoldsAt kind path name)
        (λ nothing.
          let no_size : (length contents == 0) ≡ true = ground arith in
          rw no_size (
            ap (λ l. some (record { kind = kind; contents = some l }))
              (empty_of_length contents (ground arith))))
        tt (λ lba pos placed o e_o. wrote lba pos o e_o)
    where
      need : ℕ
      need = sectors_for (length contents)

      wrote :
          (lba : ℕ)
          → 0 < need
          → (o : Bool × D)
          → block_write dev hw lba
              (u32 need)
              (padded write_buffer_capacity contents)
              write_buffer_capacity
            ≡ o
          → HoldsAt kind path name (if o.0 then some lba else none, o.1)
      wrote lba pos (false, hw') e_o = tt
      wrote lba pos (true, hw') e_o =
          let size = length contents in
          let n = u64 (size + sector_size - 1) / sector_size in
          let buffer = padded write_buffer_capacity contents in
          let more : (size == 0) ≡ false = ground arith in
          let short : leb file_buffer_capacity size ≡ false = ground arith in
          let (counted, whole, in_range, some_sector, room, enough) =
            sectors_of_file (file_entry kind path name lba size) refl more short in
          let same : need ≡ n = rw more refl in
          let got : block_read dev hw' lba (u32 n) file_buffer_capacity
              ≡ some (take (u32 n * sector_size) buffer) =
            subst
              (λ (o : Bool × D).
                block_read dev o.1 lba (u32 n) file_buffer_capacity
                ≡ some (take (u32 n * sector_size) buffer))
              e_o
              (subst
                (λ k.
                  block_read dev
                    ((block_write dev hw lba (u32 need) buffer write_buffer_capacity).1) lba (u32 k)
                    file_buffer_capacity
                  ≡ some (take (u32 k * sector_size) buffer))
                same
                (disk.written hw lba (u32 need) write_buffer_capacity file_buffer_capacity buffer
                  (omega arith) (ap (λ (o : Bool × D). o.0) e_o))) in
          rw (more, short, in_range)
            (ap (as_file (file_entry kind path name lba size)) got
              ∙ ap (λ l. some (record { kind = kind; contents = some l }))
                  (take-take-append (u32 n * sector_size) contents
                    (replicate (write_buffer_capacity - size) 0) (omega arith)))
