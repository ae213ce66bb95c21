-- ===== src/Arfs/Sectors.antt =====
-- The data sectors of kernel/arfs.c: which are free, and how a run of them is found.
use arwill.Prelude.{
  ℕ, zero, suc, ap, ◌+◌, ◌-◌, ◌^◌, ◌≤◌, ◌<◌, ◌≡◌, ◌≢◌, refl, ◌⊎◌, inl, inr, Bool, true, false, not,
  ◌&&◌, ◌||◌, if◌then◌else◌, ◌==◌, ltb, u64, Bool-cases, Option, none, some, List, [], ◌∷◌, All,
  arith,
}
use arwill.Arfs.Types.{Entry, Context, entry_sector_count}

-- `sector_range_is_free`
unfoldable pub sector_range_is_free : List Entry → ℕ → ℕ → Bool
sector_range_is_free [] first count = true
sector_range_is_free (e ∷ es) first count =
    let used = entry_sector_count e in
    let rest = sector_range_is_free es first count in
    if not (used == 0)
      && (ltb first (u64 (e.data_lba + used)) && ltb e.data_lba (u64 (first + count)))
    then false
    else rest

-- The loop of `allocate_sectors`, over the candidates that are left.
unfoldable pub first_free : ℕ → List Entry → ℕ → ℕ → Option ℕ
first_free zero es candidate count = none
first_free (suc left) es candidate count =
    let later = first_free left es (u64 (candidate + 1)) count in
    if sector_range_is_free es candidate count then some candidate else later

-- `allocate_sectors` on a device of `sectors` sectors; `none` is its result 0. The loop has one round
-- for each candidate from `data_lba` to the last that leaves room for `count`.
unfoldable pub allocate_sectors : Context → ℕ → ℕ → Option ℕ
allocate_sectors c sectors count =
    if count == 0 || (ltb sectors count || ltb (sectors - count) c.data_lba)
    then none
    else first_free (sectors - count + 1 - c.data_lba) c.entries c.data_lba count

-- the run of `count` sectors from `first` on and the sectors of an entry have none in common
abbrev pub ClearOf : ℕ → ℕ → Entry → Type 0
ClearOf first count e =
    (entry_sector_count e ≡ 0)
    ⊎ ((e.data_lba + entry_sector_count e ≤ first) ⊎ (first + count ≤ e.data_lba))

-- an entry's sectors lie on the device, from `low` on
abbrev pub OnDevice : ℕ → ℕ → Entry → Type 0
OnDevice low sectors e =
    (entry_sector_count e ≡ 0)
    ⊎ ((low ≤ e.data_lba) × (e.data_lba + entry_sector_count e ≤ sectors))

-- The test is exact, for entries and runs that lie on a device of fewer than 2^64 sectors.
pub sector_range_is_free_lem :
    (es : List Entry) (low sectors first count : ℕ)
    → sectors < 2 ^ 64
    → first + count ≤ sectors
    → All (OnDevice low sectors) es
    → sector_range_is_free es first count ≡ true
    → All (ClearOf first count) es
unfolding sector_range_is_free
sector_range_is_free_lem [] low sectors first count word fits on h = tt
sector_range_is_free_lem (e ∷ es) low sectors first count word fits on h = (
  ground arith,
  sector_range_is_free_lem es low sectors first count word fits on.1 (ground arith),
)

sector_range_is_free_complete :
    (es : List Entry) (low sectors first count : ℕ)
    → sectors < 2 ^ 64
    → first + count ≤ sectors
    → All (OnDevice low sectors) es
    → All (ClearOf first count) es
    → sector_range_is_free es first count ≡ true
unfolding sector_range_is_free
sector_range_is_free_complete [] low sectors first count word fits on h = refl
sector_range_is_free_complete (e ∷ es) low sectors first count word fits on h =
    let rest = sector_range_is_free_complete es low sectors first count word fits on.1 h.1 in
    let (clear, _) = h in let (here, _) = on in ground (arith, rest)

first_free_sound :
    (left : ℕ) (es : List Entry) (candidate count f : ℕ)
    → candidate + left < 2 ^ 64
    → first_free left es candidate count ≡ some f
    → (candidate ≤ f) × (f < candidate + left) × (sector_range_is_free es f count ≡ true)
unfolding first_free
first_free_sound zero es candidate count f word h = cc
first_free_sound (suc left) es candidate count f word h =
    let next : u64 (candidate + 1) ≡ candidate + 1 = omega arith in
    ground (arith, first_free_sound left es (candidate + 1) count f)

first_free_complete :
    (left : ℕ) (es : List Entry) (candidate count f : ℕ)
    → candidate + left < 2 ^ 64
    → candidate ≤ f
    → f < candidate + left
    → sector_range_is_free es f count ≡ true
    → (g : ℕ) × (first_free left es candidate count ≡ some g) × (g ≤ f)
unfolding first_free
first_free_complete zero es candidate count f word low high free = absurd (omega arith)
first_free_complete (suc left) es candidate count f word low high free =
    elim (Bool-cases (sector_range_is_free es candidate count)) [
      | inl this ↦ (candidate, rw this refl, low)
      | inr not_this ↦
          let next : u64 (candidate + 1) ≡ candidate + 1 = omega arith in
          let later : candidate ≢ f = λ e. cc (ap (λ k. sector_range_is_free es k count) e) in
          rw (not_this, next)
            (first_free_complete left es (candidate + 1) count f (omega arith) (omega arith)
              (omega arith) free)
    ]

-- Where the entries' sectors lie on the device, of at most 2^64 - 2 sectors, and behind the start of the
-- data area, a run of sectors that is allocated is not empty, lies there too, and holds no sector of an
-- entry.
pub allocate_sectors_lem :
    (c : Context) (sectors count f : ℕ)
    → sectors + 1 < 2 ^ 64
    → All (OnDevice c.data_lba sectors) c.entries
    → allocate_sectors c sectors count ≡ some f
    → (0 < count) × (c.data_lba ≤ f) × (f + count ≤ sectors) × All (ClearOf f count) c.entries
unfolding allocate_sectors
allocate_sectors_lem c sectors count f word on h =
    let (pos, small, low, found) = split c sectors count f h in
    let (above, below, free) =
      first_free_sound (sectors - count + 1 - c.data_lba) c.entries c.data_lba count f (omega arith)
        found in
    (
      pos,
      above,
      omega arith,
      sector_range_is_free_lem c.entries c.data_lba sectors f count (omega arith) (omega arith) on
          free,
    )
  where
    split :
        (c : Context) (sectors count f : ℕ)
        → allocate_sectors c sectors count ≡ some f
        → (0 < count)
          × (count ≤ sectors)
          × (c.data_lba ≤ sectors - count)
          × (first_free (sectors - count + 1 - c.data_lba) c.entries c.data_lba count ≡ some f)
    split c sectors count f h = ground arith

-- Where the entries' sectors lie on the device, of at most 2^64 - 2 sectors, and behind the start of the
-- data area, and some run of `count` sectors from `f` on lies there and is clear of them, the allocation
-- of `count` sectors succeeds, at `f` or before it.
pub allocate_sectors_complete :
    (c : Context) (sectors count f : ℕ)
    → sectors + 1 < 2 ^ 64
    → All (OnDevice c.data_lba sectors) c.entries
    → 0 < count
    → c.data_lba ≤ f
    → f + count ≤ sectors
    → All (ClearOf f count) c.entries
    → (g : ℕ) × (allocate_sectors c sectors count ≡ some g) × (g ≤ f)
unfolding allocate_sectors
allocate_sectors_complete c sectors count f word on pos low high clear =
    let free =
      sector_range_is_free_complete c.entries c.data_lba sectors f count (omega arith) high on
        clear in
    let asked : (count == 0 || (ltb sectors count || ltb (sectors - count) c.data_lba)) ≡ false =
      ground arith in
    rw asked (
      first_free_complete (sectors - count + 1 - c.data_lba) c.entries c.data_lba count f
        (omega arith) low (omega arith) free)
