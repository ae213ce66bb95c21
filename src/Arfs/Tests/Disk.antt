-- ===== src/Arfs/Tests/Disk.antt =====
-- A block device whose hardware is a function from sectors to their bytes, which keeps what it is given.
use arwill.Prelude.{
  ℕ, zero, suc, ◌+◌, ◌-◌, ◌*◌, ◌≤◌, ◌≡◌, refl, ap, sym, ◌∙◌, inl, inr, subst, true, false, ◌&&◌,
  if◌then◌else◌, ltb, leb, Bool-cases, some, List, [], ◌∷◌, ◌++◌, take, drop, arith,
}
use arwill.Block.{Device, range_fits, buffer_fits, block_read, block_write}
use arwill.Arfs.Contents.{AreClear, IsDisk}

abbrev pub Sectors : Type 0
Sectors = ℕ → List ℕ

pub read_sectors : Sectors → ℕ → ℕ → List ℕ
read_sectors hw zero lba = []
read_sectors hw (suc count) lba = hw lba ++ read_sectors hw count (lba + 1)

pub write_sectors : Sectors → ℕ → ℕ → List ℕ → Sectors
write_sectors hw lba count bytes s =
    if leb lba s && ltb s (lba + count) then take 512 (drop ((s - lba) * 512) bytes) else hw s

abbrev pub device : Device Sectors
device = record {
  sector_size = 512;
  sector_count = 40;
  read = some (λ hw lba count room. some (read_sectors hw count lba));
  write = some (λ hw lba count bytes size. (true, write_sectors hw lba count bytes));
}

take_none : (n : ℕ) → take {A = ℕ} n [] ≡ []
take_none zero = refl
take_none (suc n) = refl

drop_none : (n : ℕ) → drop {A = ℕ} n [] ≡ []
drop_none zero = refl
drop_none (suc n) = refl

take-take_rest : (n m : ℕ) (xs : List ℕ) → take n xs ++ take m (drop n xs) ≡ take (n + m) xs
take-take_rest zero m xs = ap (λ i. take i xs) (omega arith)
take-take_rest (suc n) m [] = take_none m ∙ sym (take_none (suc n + m))
take-take_rest (suc n) m (x ∷ xs) =
    let next : suc n + m ≡ suc (n + m) = omega arith in
    rw next (ap (λ l. x ∷ l) (take-take_rest n m xs))

drop-drop : (n k : ℕ) (xs : List ℕ) → drop n (drop k xs) ≡ drop (k + n) xs
drop-drop n zero xs = ap (λ i. drop i xs) (omega arith)
drop-drop n (suc k) [] = drop_none n ∙ sym (drop_none (suc k + n))
drop-drop n (suc k) (x ∷ xs) =
    let next : suc k + n ≡ suc (k + n) = omega arith in rw next (drop-drop n k xs)

take-drop_add :
    (n m k : ℕ) (xs : List ℕ)
    → take n (drop k xs) ++ take m (drop (k + n) xs) ≡ take (n + m) (drop k xs)
take-drop_add n m k xs =
    ap (λ l. take n (drop k xs) ++ take m l) (sym (drop-drop n k xs))
    ∙ take-take_rest n m (drop k xs)

same_others :
    (hw : Sectors) (lba count first n : ℕ) (bytes : List ℕ)
    → AreClear lba count first n
    → read_sectors (write_sectors hw lba count bytes) n first ≡ read_sectors hw n first
unfolding read_sectors write_sectors
same_others hw lba count first zero bytes clear = refl
same_others hw lba count first (suc n) bytes (inl before) =
    let out : (leb lba first && ltb first (lba + count)) ≡ false = ground arith in
    rw out
      (ap (λ l. hw first ++ l) (same_others hw lba count (first + 1) n bytes (inl (omega arith))))
same_others hw lba count first (suc n) bytes (inr behind) =
    let out : (leb lba first && ltb first (lba + count)) ≡ false = ground arith in
    rw out
      (ap (λ l. hw first ++ l) (same_others hw lba count (first + 1) n bytes (inr (omega arith))))

reads_back :
    (hw : Sectors) (lba count i n : ℕ) (bytes : List ℕ)
    → i + n ≤ count
    → read_sectors (write_sectors hw lba count bytes) n (lba + i)
      ≡ take (n * 512) (drop (i * 512) bytes)
unfolding read_sectors write_sectors
reads_back hw lba count i zero bytes fits = refl
reads_back hw lba count i (suc n) bytes fits =
    let in_it : (leb lba (lba + i) && ltb (lba + i) (lba + count)) ≡ true = ground arith in
    let at_i : lba + i - lba ≡ i = omega arith in
    let next : lba + i + 1 ≡ lba + (i + 1) = omega arith in
    let further : (i + 1) * 512 ≡ i * 512 + 512 = omega arith in
    let longer : suc n * 512 ≡ 512 + n * 512 = omega arith in
    let rest = reads_back hw lba count (i + 1) n bytes (omega arith) in
    rw (in_it, at_i, next, rest, further, longer) (take-drop_add 512 (n * 512) (i * 512) bytes)

room_enough : (count room : ℕ) → count * 512 ≤ room → buffer_fits 512 count room ≡ true
unfolding buffer_fits
room_enough count room fits = ground arith

back :
    (hw : Sectors) (lba count : ℕ) (bytes : List ℕ)
    → read_sectors (write_sectors hw lba count bytes) count lba ≡ take (count * 512) bytes
back hw lba count bytes =
    let same : lba + 0 ≡ lba = omega arith in
    subst
      (λ first.
        read_sectors (write_sectors hw lba count bytes) count first ≡ take (count * 512) bytes)
      same (reads_back hw lba count 0 count bytes (omega arith))

rejected : false ≡ true → ⊥
rejected h = ground arith

device_written :
    (hw : Sectors) (lba count size room : ℕ) (bytes : List ℕ)
    → count * 512 ≤ room
    → (block_write device hw lba count bytes size).0 ≡ true
    → block_read device ((block_write device hw lba count bytes size).1) lba count room
      ≡ some (take (count * 512) bytes)
unfolding block_read block_write range_fits buffer_fits
device_written hw lba count size room bytes fits done =
    elim (Bool-cases (range_fits 40 lba count)) [
      | inl inside ↦ elim (Bool-cases (buffer_fits 512 count size)) [
        | inl enough ↦
            let room_for : buffer_fits 512 count room ≡ true = room_enough count room fits in
            rw (inside, enough, room_for) (ap (λ l. some l) (back hw lba count bytes))
        | inr short ↦ absurd (rejected (rw (inside, short) at done))
      ]
      | inr outside ↦ absurd (rejected (rw outside at done))
    ]

device_others :
    (hw : Sectors) (lba count size first n room : ℕ) (bytes : List ℕ)
    → AreClear lba count first n
    → block_read device ((block_write device hw lba count bytes size).1) first n room
      ≡ block_read device hw first n room
unfolding block_read block_write range_fits buffer_fits
device_others hw lba count size first n room bytes clear =
    elim (Bool-cases (range_fits 40 lba count)) [
      | inl inside ↦ elim (Bool-cases (buffer_fits 512 count size)) [
        | inl enough ↦ rw (inside, enough, same_others hw lba count first n bytes clear) refl
        | inr short ↦ rw (inside, short) refl
      ]
      | inr outside ↦ rw outside refl
    ]

pub device-IsDisk : IsDisk device
device-IsDisk = record { written = device_written; others = device_others }
