-- ===== src/Arfs/Placement.antt =====
-- Where kernel/arfs.c puts the contents of a file: apart from every other file, in the data area.
use arwill.Prelude.{
  ℕ, ◌+◌, ◌^◌, ◌≤◌, ◌<◌, ◌≡◌, refl, sym, ◌∙◌, ◌⊎◌, inl, inr, Bool, true, false, if◌then◌else◌, ◌==◌,
  leb, u32, Bool-cases, Option, none, some, List, [], ◌∷◌, length, All, arith,
}
use arwill.Prelude.Lists.{All-map}
use arwill.Block.{Device, block_write}
use arwill.Arfs.Types.{Entry, Context, entry_sector_count, max_entries, write_buffer_capacity}
use arwill.Arfs.Sectors.{OnDevice, ClearOf, allocate_sectors, allocate_sectors_lem}
use arwill.Arfs.Manifest.{padded}
use arwill.Arfs.Ops.{sectors_for, store_contents}
use arwill.Arfs.Entries.{AreApart, Pairwise}

-- A context that is sound on a device of `sectors` sectors.
pub record IsValid (sectors : ℕ) (c : Context) : Type 0 where
  pub few : length c.entries ≤ max_entries
  pub stored : All (OnDevice c.data_lba sectors) c.entries
  pub apart : Pairwise c.entries

-- Where the contents are stored: nowhere, over the old ones, or in newly allocated sectors.
abbrev pub Placed : Context → ℕ → ℕ → ℕ → ℕ → Option ℕ → Type 0
Placed c sectors current current_lba need none = Unit
Placed c sectors current current_lba need (some lba) =
    (need ≡ 0)
    ⊎ (((need ≤ current) × (lba ≡ current_lba)) ⊎ (allocate_sectors c sectors need ≡ some lba))

pub every_one : (P : Entry → Type 0) → ((f : Entry) → P f) → (es : List Entry) → All P es
every_one P h [] = tt
every_one P h (f ∷ es) = (h f, every_one P h es)

-- the sectors of two entries have none in common
abbrev AreDisjoint : Entry → Entry → Type 0
AreDisjoint e f =
    (entry_sector_count e ≡ 0)
    ⊎ ((entry_sector_count f ≡ 0)
        ⊎ ((e.data_lba + entry_sector_count e ≤ f.data_lba)
            ⊎ (f.data_lba + entry_sector_count f ≤ e.data_lba)))

smaller :
    (e new f : Entry)
    → entry_sector_count new ≤ entry_sector_count e
    → new.data_lba ≡ e.data_lba
    → AreDisjoint e f
    → AreDisjoint new f
smaller e new f le at sep = ground arith

clear_of :
    (new f : Entry) (need lba : ℕ)
    → entry_sector_count new ≡ need
    → new.data_lba ≡ lba
    → ClearOf lba need f
    → AreDisjoint new f
clear_of new f need lba n l sep = ground arith

-- The sectors of an entry that is stored where `Placed` says lie on the device.
pub Placed-OnDevice :
    (c : Context) (sectors current current_lba need lba : ℕ) (new : Entry)
    → sectors + 1 < 2 ^ 64
    → IsValid sectors c
    → (current ≡ 0) ⊎ ((c.data_lba ≤ current_lba) × (current_lba + current ≤ sectors))
    → Placed c sectors current current_lba need (some lba)
    → entry_sector_count new ≡ need
    → new.data_lba ≡ lba
    → OnDevice c.data_lba sectors new
Placed-OnDevice c sectors current current_lba need lba new word v old (inl nothing) n l =
    inl (n ∙ nothing)
Placed-OnDevice c sectors current current_lba need lba new word v old (inr (inl (fits, same))) n l =
    ground arith
Placed-OnDevice c sectors current current_lba need lba new word v old (inr (inr found)) n l =
    let (pos, low, high, clear) = allocate_sectors_lem c sectors need lba word v.stored found in
    inr (omega arith, omega arith)

-- An entry that is stored there is apart from every entry of another path that the old one was apart
-- from.
pub Placed-AreApart :
    (c : Context) (sectors current current_lba need lba : ℕ) (e new : Entry)
    → sectors + 1 < 2 ^ 64
    → IsValid sectors c
    → entry_sector_count e ≡ current
    → e.data_lba ≡ current_lba
    → Placed c sectors current current_lba need (some lba)
    → entry_sector_count new ≡ need
    → new.data_lba ≡ lba
    → new.path ≡ e.path
    → All (λ f. AreApart e f → AreApart new f) c.entries
Placed-AreApart c sectors current current_lba need lba e new word v ne le (inl nothing) n l same =
    every_one (λ f. AreApart e f → AreApart new f)
      (λ f (other, _). (λ q. other (sym same ∙ q), inl (n ∙ nothing))) c.entries
Placed-AreApart c sectors current current_lba need lba e new word v ne le (inr (inl (fits, at))) n l
      same =
    every_one (λ f. AreApart e f → AreApart new f)
      (λ f (other, sep).
        (λ q. other (sym same ∙ q), smaller e new f (omega arith) (omega arith) sep))
      c.entries
Placed-AreApart c sectors current current_lba need lba e new word v ne le (inr (inr found)) n l
      same =
    let (pos, low, high, clear) = allocate_sectors_lem c sectors need lba word v.stored found in
    All-map (λ f sep (other, _). (λ q. other (sym same ∙ q), clear_of new f need lba n l sep))
      c.entries clear

module _ {D : Type 0} (dev : Device D) (c : Context) (current current_lba : ℕ) (hw : D) where
  -- The ways in which `store_contents` ends: there is nothing to store, there is no place for it, or the
  -- device is written to.
  pub store_contents_cases :
      (contents : List ℕ) (P : Option ℕ × D → Type 0)
      → (sectors_for (length contents) ≡ 0 → P (some 0, hw))
      → P (none, hw)
      → ((lba : ℕ)
          → 0 < sectors_for (length contents)
          → Placed c dev.sector_count current current_lba (sectors_for (length contents)) (some lba)
          → (o : Bool × D)
          → block_write dev hw lba
              (u32 (sectors_for (length contents)))
              (padded write_buffer_capacity contents)
              write_buffer_capacity
            ≡ o
          → P (if o.0 then some lba else none, o.1))
      → P (store_contents dev c current current_lba hw contents)
  unfolding store_contents
  store_contents_cases contents P nothing no_place wrote = empty (Bool-cases (need == 0))
    where
      need : ℕ
      need = sectors_for (length contents)

      place : Option ℕ
      place =
          if leb need current then some current_lba else allocate_sectors c dev.sector_count need

      run : Option ℕ → Option ℕ × D
      run p = elim p [
        | none ↦ (none, hw)
        | some lba ↦
            (let (stored, hw') =
                block_write dev hw lba (u32 need) (padded write_buffer_capacity contents)
                  write_buffer_capacity in
              (if stored then some lba else none, hw'))
      ]

      at_place :
          (p : Option ℕ)
          → 0 < need
          → Placed c dev.sector_count current current_lba need p
          → P (run p)
      at_place none pos placed = no_place
      at_place (some lba) pos placed = wrote lba pos placed _ refl

      allocated :
          (o : Option ℕ)
          → allocate_sectors c dev.sector_count need ≡ o
          → Placed c dev.sector_count current current_lba need o
      allocated none e = tt
      allocated (some lba) e = inr (inr e)

      chosen :
          (leb need current ≡ true) ⊎ (leb need current ≡ false)
          → Placed c dev.sector_count current current_lba need place
      chosen (inl fits) = rw fits (inr (inl (ground arith, refl)))
      chosen (inr grows) = rw grows (allocated (allocate_sectors c dev.sector_count need) refl)

      empty :
          (need == 0 ≡ true) ⊎ (need == 0 ≡ false)
          → P (if need == 0 then (some 0, hw) else run place)
      empty (inl zero_need) = rw zero_need (nothing (ground arith))
      empty (inr something) =
          rw something (at_place place (ground arith) (chosen (Bool-cases (leb need current))))

  pub store_contents-Placed :
      (contents : List ℕ)
      → Placed c dev.sector_count current current_lba
          (sectors_for (length contents))
          ((store_contents dev c current current_lba hw contents).0)
  store_contents-Placed contents =
      store_contents_cases contents
        (λ o. Placed c dev.sector_count current current_lba (sectors_for (length contents)) o.0)
        (λ nothing. inl nothing) tt (λ lba pos placed o _. kept o.0 lba placed)
    where
      kept :
          (stored : Bool) (lba : ℕ)
          → Placed c dev.sector_count current current_lba (sectors_for (length contents)) (some lba)
          → Placed c dev.sector_count current current_lba
              (sectors_for (length contents))
              (if stored then some lba else none)
      kept true lba p = p
      kept false lba p = tt
