-- ===== src/Memory/Heap/Allocate.antt =====
-- Allocation from the kernel heap.
use arwill.Prelude.{
  ℕ, ◌+◌, ◌-◌, ◌%◌, ◌^◌, ◌≤◌, ◌<◌, ◌≡◌, refl, subst, ◌⊎◌, inl, inr, Bool, true, false, not, ◌&&◌,
  ◌||◌, ltb, u64, Bool-cases, le→leb, lt→leb_false, if◌then◌else◌, Option, none, some, List, [],
  ◌∷◌, All, arith,
}
use native.Mathlib.Decide.{dec_le}
use arwill.Memory.Heap.{header_size, heap_alignment, Block, carve, carved_size, first_fit}
use arwill.Memory.Heap.Invariant.{Tiled, in_use, Settled, allocated, Tiled-le}

-- `Insert x l l'`: the list `l'` is `l` with `x` put in somewhere.
abbrev pub Insert : ℕ × ℕ → List (ℕ × ℕ) → List (ℕ × ℕ) → Type 0
Insert x l [] = ⊥
Insert x l (y ∷ r) = ((x ≡ y) × (l ≡ r)) ⊎ ((l' : List (ℕ × ℕ)) × (l ≡ y ∷ l') × Insert x l' r)

-- what a successful search promises of the blocks `bs` between `start` and `end`
pub record Fits (start end size : ℕ) (bs : List Block) (p used : ℕ) (bs' : List Block)
    : Type 0 where
  pub tiled : Tiled start end bs'
  pub enough : size ≤ used
  pub inserted : Insert (p, used) (allocated bs) (allocated bs')
  pub counted : in_use bs' ≡ in_use bs + used
  pub settled : (before : Bool) → Settled before bs → Settled before bs'

abbrev pub TooSmall : ℕ → Block → Type 0
TooSmall size b = (b.free ≡ false) ⊎ (b.size < size)

abbrev pub Search : ℕ → ℕ → ℕ → List Block → Option (ℕ × ℕ × List Block) → Type 0
Search start end size bs none = All (TooSmall size) bs
Search start end size bs (some (p, used, bs')) = Fits start end size bs p used bs'

Settled-any : (before : Bool) (bs : List Block) → Settled before bs → Settled false bs
Settled-any before [] h = tt
Settled-any before (b ∷ bs) h = (refl, h.1)

and_false : (b : Bool) → (b && false) ≡ false
and_false b = ground arith

module _ (start end size : ℕ) (b : Block) (rest : List Block) (m : size % 16 ≡ 0) (pos : 0 < size)
    (fits : size ≤ b.size) (is_free : b.free ≡ true) (low : 16 ≤ start) (word : end < 2 ^ 64)
    (t : Tiled start end (b ∷ rest)) where
  addr_exact : u64 (b.addr + header_size) ≡ b.addr + header_size
  addr_exact = omega (arith, t.0, Tiled-le (start + header_size + b.size) end rest t.3)

  need_exact : u64 (u64 (size + header_size) + heap_alignment) ≡ size + 48
  need_exact = omega (arith, t.0, Tiled-le (start + header_size + b.size) end rest t.3)

  split_addr : u64 (b.addr + header_size + size) ≡ b.addr + header_size + size
  split_addr = omega (arith, t.0, Tiled-le (start + header_size + b.size) end rest t.3)

  -- the two blocks of a split, and the one block taken whole
  split_blocks : List Block
  split_blocks =
      record b { size = size; free = false }
      ∷ record {
        addr = b.addr + header_size + size;
        size = b.size - size - header_size;
        free = true;
      }
      ∷ rest

  split_Fits :
      size + 48 ≤ b.size → Fits start end size (b ∷ rest) (b.addr + header_size) size split_blocks
  unfolding split_blocks
  split_Fits room = record {
    tiled = (
      t.0,
      m,
      pos,
      (
        omega (arith, t.0),
        omega (arith, t.1),
        omega arith,
        subst (λ k. Tiled k end rest) (omega arith) t.3,
      ),
    );
    enough = omega arith;
    inserted = rw is_free (inl (refl, refl));
    counted = rw is_free (omega arith);
    settled = λ before h. (and_false before, (refl, subst (λ f. Settled f rest) is_free h.1));
  }

  whole_Fits :
      Fits start end size
        (b ∷ rest)
        (b.addr + header_size)
        b.size
        (record b { free = false } ∷ rest)
  whole_Fits = record {
    tiled = t;
    enough = fits;
    inserted = rw is_free (inl (refl, refl));
    counted = rw is_free (omega arith);
    settled = λ before h. (and_false before, Settled-any b.free rest h.1);
  }

  -- The block that is taken, whole or split.
  take_block :
      Fits start end size
        (b ∷ rest)
        (u64 (b.addr + header_size))
        (carved_size size b)
        (carve size b rest)
  unfolding carve carved_size split_blocks
  take_block = elim (dec_le (size + 48) b.size) [
    | yes room ↦
        rw (addr_exact, split_addr, need_exact, le→leb (size + 48) b.size room) (split_Fits room)
    | no short ↦
        rw (addr_exact, need_exact, lt→leb_false (size + 48) b.size (omega arith)) whole_Fits
  ]

Insert-unless :
    (free : Bool) (x y : ℕ × ℕ) (l l' : List (ℕ × ℕ))
    → Insert x l l'
    → Insert x (if free then l else y ∷ l) (if free then l' else y ∷ l')
Insert-unless true x y l l' h = h
Insert-unless false x y l l' h = inr (l, refl, h)

-- A block that is passed over.
skip_block :
    (start end size : ℕ) (b : Block) (rest : List Block) (o : Option (ℕ × ℕ × List Block))
    → Tiled start end (b ∷ rest)
    → TooSmall size b
    → Search (start + header_size + b.size) end size rest o
    → Search start end size
        (b ∷ rest)
        (elim o [ none ↦ none | some (p, used, rest') ↦ some (p, used, b ∷ rest') ])
skip_block start end size b rest none t small h = (small, h)
skip_block start end size b rest (some (p, used, rest')) t small f = record {
  tiled = (t.0, t.1, t.2, f.tiled);
  enough = f.enough;
  inserted =
      Insert-unless b.free (p, used) (b.addr + header_size, b.size) (allocated rest)
        (allocated rest') f.inserted;
  counted = omega (arith, f.counted);
  settled = λ before h. (h.0, f.settled b.free h.1);
}

not_taken : (size : ℕ) (b : Block) → (not b.free || ltb b.size size) ≡ true → TooSmall size b
not_taken size b h = ground arith

taken :
    (size : ℕ) (b : Block)
    → (not b.free || ltb b.size size) ≡ false
    → (b.free ≡ true) × (size ≤ b.size)
taken size b h = ground arith

-- The search takes room of a free block that is large enough, or there is none.
pub first_fit_lem :
    (start end size : ℕ) (bs : List Block)
    → size % 16 ≡ 0
    → 0 < size
    → 16 ≤ start
    → end < 2 ^ 64
    → Tiled start end bs
    → Search start end size bs (first_fit size bs)
unfolding first_fit
first_fit_lem start end size [] m pos low word t = tt
first_fit_lem start end size (b ∷ rest) m pos low word t =
    elim (Bool-cases (not b.free || ltb b.size size)) [
      | inl over ↦ rw over (
          skip_block start end size b rest (first_fit size rest) t (not_taken size b over) (
            first_fit_lem (start + header_size + b.size) end size rest m pos (omega arith) word
              t.3))
      | inr this ↦ rw this (
          take_block start end size b rest m pos (taken size b this).1 (taken size b this).0 low
            word t)
    ]
