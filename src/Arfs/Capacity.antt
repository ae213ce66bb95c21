-- ===== src/Arfs/Capacity.antt =====
-- What `arfs_storage_stats` of kernel/arfs.c counts, and what can be allocated by it.
use arwill.Prelude.{
  ℕ, zero, suc, ◌+◌, ◌-◌, ◌^◌, ◌≤◌, ◌<◌, ◌≡◌, refl, subst, ◌⊎◌, inl, inr, false, ltb, u64,
  Bool-cases, some, List, [], ◌∷◌, All, arith,
}
use arwill.Files.{StorageStats}
use arwill.Arfs.Types.{Entry, Context}
use arwill.Arfs.Sectors.{
  sector_range_is_free, allocate_sectors, ClearOf, OnDevice, sector_range_is_free_lem,
  allocate_sectors_complete,
}
use arwill.Arfs.Storage.{Runs, count_sector, count_sectors, storage_stats, stats_of, no_runs}

-- A free run that the loop has found: it lies between the start of the data area and the sector reached,
-- and no entry has a sector of it.
abbrev pub IsRun : List Entry → ℕ → ℕ → ℕ → Type 0
IsRun es low end n = (n ≡ 0) ⊎ ((f : ℕ) × (low ≤ f) × (f + n ≤ end) × All (ClearOf f n) es)

-- What holds of the counts when the loop reaches a sector.
pub record HasCounted (es : List Entry) (low sector : ℕ) (r : Runs) : Type 0 where
  pub counted : low + (r.used + r.largest_free_run) ≤ sector
  pub current : low + (r.used + r.current_free_run) ≤ sector
  pub now_free :
      (r.current_free_run ≡ 0) ⊎ All (ClearOf (sector - r.current_free_run) r.current_free_run) es
  pub found : IsRun es low sector r.largest_free_run

longer_run :
    (es : List Entry) (first n : ℕ)
    → (n ≡ 0) ⊎ All (ClearOf first n) es
    → All (ClearOf (first + n) 1) es
    → All (ClearOf first (n + 1)) es
longer_run [] first n h one = tt
longer_run (e ∷ es) first n (inl nothing) (here, rest) =
    (ground arith, longer_run es first n (inl nothing) rest)
longer_run (e ∷ es) first n (inr (clear, others)) (here, rest) =
    (ground arith, longer_run es first n (inr others) rest)

further : (es : List Entry) (low sector n : ℕ) → IsRun es low sector n → IsRun es low (sector + 1) n
further es low sector n (inl nothing) = inl nothing
further es low sector n (inr (f, above, below, clear)) = inr (f, above, omega arith, clear)

count_sector-HasCounted :
    (es : List Entry) (low sectors sector : ℕ) (r : Runs)
    → sectors < 2 ^ 64
    → sector < sectors
    → All (OnDevice low sectors) es
    → HasCounted es low sector r
    → HasCounted es low (sector + 1) (count_sector es sector r)
unfolding count_sector
count_sector-HasCounted es low sectors sector r word here on h =
    elim (Bool-cases (sector_range_is_free es sector 1)) [
      | inl free ↦
          let one =
            sector_range_is_free_lem es low sectors sector 1 (omega arith) (omega arith) on free in
          let counted = h.counted in
          let current = h.current in
          let next : u64 (r.current_free_run + 1) ≡ r.current_free_run + 1 = omega arith in
          let same : sector - r.current_free_run + r.current_free_run ≡ sector = omega arith in
          let start : sector + 1 - (r.current_free_run + 1) ≡ sector - r.current_free_run =
            omega arith in
          let run : All (ClearOf (sector + 1 - (r.current_free_run + 1)) (r.current_free_run + 1))
              es =
            rw start (
              longer_run es (sector - r.current_free_run) r.current_free_run h.now_free
                (rw same one)) in
          rw (free, next)
            (elim (Bool-cases (ltb r.largest_free_run (r.current_free_run + 1))) [
              | inl longer ↦ rw longer (record {
                counted = omega arith;
                current = omega arith;
                now_free = inr run;
                found = inr (sector + 1 - (r.current_free_run + 1), omega arith, omega arith, run);
              })
              | inr shorter ↦ rw shorter (record {
                counted = omega arith;
                current = omega arith;
                now_free = inr run;
                found = further es low sector r.largest_free_run h.found;
              })
            ])
      | inr taken ↦
          let counted = h.counted in
          let current = h.current in
          let next : u64 (r.used + 1) ≡ r.used + 1 = omega arith in
          rw (taken, next)
            (record {
              counted = omega arith;
              current = omega arith;
              now_free = inl refl;
              found = further es low sector r.largest_free_run h.found;
            })
    ]

count_sectors-HasCounted :
    (left : ℕ) (es : List Entry) (low sectors sector : ℕ) (r : Runs)
    → sectors + 1 < 2 ^ 64
    → sector + left ≤ sectors
    → All (OnDevice low sectors) es
    → HasCounted es low sector r
    → HasCounted es low (sector + left) (count_sectors left es sector r)
unfolding count_sectors
count_sectors-HasCounted zero es low sectors sector r word fits on h =
    subst (λ i. HasCounted es low i r) (omega arith) h
count_sectors-HasCounted (suc left) es low sectors sector r word fits on h =
    let next : u64 (sector + 1) ≡ sector + 1 = omega arith in
    let end : sector + suc left ≡ sector + 1 + left = omega arith in
    rw (next, end)
      (count_sectors-HasCounted left es low sectors (sector + 1) (count_sector es sector r) word
        (omega arith) on
        (count_sector-HasCounted es low sectors sector r (omega arith) (omega arith) on h))

stats_counted :
    (c : Context) (sectors : ℕ)
    → sectors + 1 < 2 ^ 64
    → c.data_lba ≤ sectors
    → All (OnDevice c.data_lba sectors) c.entries
    → HasCounted c.entries c.data_lba sectors
        (count_sectors (sectors - c.data_lba) c.entries c.data_lba no_runs)
stats_counted c sectors word inside on =
    let end : c.data_lba + (sectors - c.data_lba) ≡ sectors = omega arith in
    subst
      (λ i.
        HasCounted c.entries c.data_lba i
          (count_sectors (sectors - c.data_lba) c.entries c.data_lba no_runs))
      end
      (count_sectors-HasCounted (sectors - c.data_lba) c.entries c.data_lba sectors c.data_lba
        no_runs word (omega arith) on
        (record {
          counted = omega arith;
          current = omega arith;
          now_free = inl refl;
          found = inl refl;
        }))

shorter_run :
    (es : List Entry) (first n m : ℕ) → n ≤ m → All (ClearOf first m) es → All (ClearOf first n) es
shorter_run [] first n m small h = tt
shorter_run (e ∷ es) first n m small (here, rest) =
    (ground arith, shorter_run es first n m small rest)

allocates :
    (c : Context) (sectors n largest : ℕ)
    → sectors + 1 < 2 ^ 64
    → All (OnDevice c.data_lba sectors) c.entries
    → 0 < n
    → n ≤ largest
    → IsRun c.entries c.data_lba sectors largest
    → (g : ℕ) × (allocate_sectors c sectors n ≡ some g)
allocates c sectors n largest word on pos small (inl nothing) = absurd (omega arith)
allocates c sectors n largest word on pos small (inr (f, above, below, clear)) =
    let (g, made, _) =
      allocate_sectors_complete c sectors n f word on pos above (omega arith)
        (shorter_run c.entries f n largest small clear) in
    (g, made)

-- Where the data area starts on a device of at most 2^64 - 2 sectors and the entries' sectors lie in it,
-- the statistics are given; the used and the free sectors make up the data area, the largest free run is
-- no longer than the free sectors, and every allocation of as many sectors as it has, or fewer but at
-- least one, succeeds.
pub storage_stats_lem :
    (c : Context) (sectors : ℕ)
    → sectors + 1 < 2 ^ 64
    → c.data_lba ≤ sectors
    → All (OnDevice c.data_lba sectors) c.entries
    → (s : StorageStats) × (storage_stats c sectors ≡ some s)
      × (s.used_data_sectors + s.free_data_sectors ≡ sectors - c.data_lba)
      × (s.largest_free_run_sectors ≤ s.free_data_sectors)
      × ((n : ℕ)
          → 0 < n
          → n ≤ s.largest_free_run_sectors
          → (g : ℕ) × (allocate_sectors c sectors n ≡ some g))
unfolding storage_stats
storage_stats_lem c sectors word inside on =
    let h = stats_counted c sectors word inside on in
    let counted = h.counted in
    let some_stats : ltb sectors c.data_lba ≡ false = ground arith in
    let runs = count_sectors (sectors - c.data_lba) c.entries c.data_lba no_runs in
    (
      stats_of c sectors runs,
      rw some_stats refl,
      omega arith,
      omega arith,
      λ n pos small. allocates c sectors n runs.largest_free_run word on pos small h.found,
    )
