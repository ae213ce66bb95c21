-- ===== src/Memory/Heap/Invariant.antt =====
-- The well-formedness of the kernel heap: its blocks tile it, and what is in use is counted.
use arwill.Prelude.{
  ℕ, ◌+◌, ◌%◌, ◌^◌, ◌≤◌, ◌<◌, ◌≡◌, ◌⊎◌, Bool, true, false, ◌&&◌, if◌then◌else◌, List, [], ◌∷◌, All,
  arith,
}
use arwill.Memory.Heap.{header_size, Block, Heap}

-- The blocks follow one another from `start` to `end` with nothing between them, and their sizes are
-- positive multiples of 16.
abbrev pub Tiled : ℕ → ℕ → List Block → Type 0
Tiled start end [] = start ≡ end
Tiled start end (b ∷ bs) =
    (b.addr ≡ start)
    × (b.size % 16 ≡ 0)
    × (0 < b.size)
    × Tiled (start + header_size + b.size) end bs

-- the bytes in blocks that are not free
abbrev pub in_use : List Block → ℕ
in_use [] = 0
in_use (b ∷ bs) = (if b.free then 0 else b.size) + in_use bs

-- No two neighbours are both free; the flag says whether the block before the list is free.
abbrev pub Settled : Bool → List Block → Type 0
Settled before [] = Unit {0}
Settled before (b ∷ bs) = ((before && b.free) ≡ false) × Settled b.free bs

pub record IsValid (h : Heap) : Type 0 where
  pub tiled : Tiled h.base (h.base + h.size_bytes) h.blocks
  pub base_aligned : h.base % 16 ≡ 0
  pub base_pos : 0 < h.base
  pub end_word : h.base + h.size_bytes < 2 ^ 64
  pub used_exact : h.used_bytes ≡ in_use h.blocks
  pub settled : Settled false h.blocks

-- the payloads that are allocated: address and size
abbrev pub allocated : List Block → List (ℕ × ℕ)
allocated [] = []
allocated (b ∷ bs) =
    let rest = allocated bs in if b.free then rest else (b.addr + header_size, b.size) ∷ rest

-- two payloads that do not overlap
abbrev pub AreasApart : ℕ × ℕ → ℕ × ℕ → Type 0
AreasApart a b = (a.0 + a.1 ≤ b.0) ⊎ (b.0 + b.1 ≤ a.0)

abbrev pub AllAreasApart : List (ℕ × ℕ) → Type 0
AllAreasApart [] = Unit {0}
AllAreasApart (a ∷ as') = All (AreasApart a) as' × AllAreasApart as'

-- the payload lies in the part of the heap from `start` to `end`, behind a header, and starts at a
-- multiple of 16
abbrev pub AreaIn : ℕ → ℕ → ℕ × ℕ → Type 0
AreaIn start end a = (start + header_size ≤ a.0) × (a.0 + a.1 ≤ end) × (a.0 % 16 ≡ 0)

pub Tiled-le : (start end : ℕ) (bs : List Block) → Tiled start end bs → start ≤ end
Tiled-le start end [] t = omega arith
Tiled-le start end (b ∷ bs) (a, m, p, t) =
    omega (arith, Tiled-le (start + header_size + b.size) end bs t)

All-unless :
    (P : ℕ × ℕ → Type 0) (free : Bool) {x : ℕ × ℕ} (xs : List (ℕ × ℕ))
    → P x
    → All P xs
    → All P (if free then xs else x ∷ xs)
All-unless P true xs h k = k
All-unless P false xs h k = (h, k)

weaken : (s s' e : ℕ) (as' : List (ℕ × ℕ)) → s' ≤ s → All (AreaIn s e) as' → All (AreaIn s' e) as'
weaken s s' e [] h k = tt
weaken s s' e (a ∷ as') h k = (omega (arith, k.0), weaken s s' e as' h k.1)

-- Every allocated payload of a tiled heap lies in it, at a multiple of 16.
pub allocated_in :
    (start end : ℕ) (bs : List Block)
    → start % 16 ≡ 0
    → Tiled start end bs
    → All (AreaIn start end) (allocated bs)
allocated_in start end [] h t = tt
allocated_in start end (b ∷ bs) h (a, m, p, t) =
    let later =
      weaken (start + header_size + b.size) start end (allocated bs) (omega arith)
        (allocated_in (start + header_size + b.size) end bs (omega arith) t) in
    let fits = Tiled-le (start + header_size + b.size) end bs t in
    All-unless (AreaIn start end) b.free (allocated bs) (omega arith) later

from_later :
    (s e : ℕ) (x : ℕ × ℕ) (as' : List (ℕ × ℕ))
    → x.0 + x.1 ≤ s
    → All (AreaIn s e) as'
    → All (AreasApart x) as'
from_later s e x [] h k = tt
from_later s e x (a ∷ as') h k = (omega (arith, k.0), from_later s e x as' h k.1)

apart-unless :
    (free : Bool) (x : ℕ × ℕ) (xs : List (ℕ × ℕ))
    → All (AreasApart x) xs
    → AllAreasApart xs
    → AllAreasApart (if free then xs else x ∷ xs)
apart-unless true x xs h k = k
apart-unless false x xs h k = (h, k)

-- The allocated payloads of a tiled heap do not overlap.
pub allocated_apart :
    (start end : ℕ) (bs : List Block)
    → start % 16 ≡ 0
    → Tiled start end bs
    → AllAreasApart (allocated bs)
allocated_apart start end [] h t = tt
allocated_apart start end (b ∷ bs) h (a, m, p, t) =
    let next = start + header_size + b.size in
    apart-unless b.free (b.addr + header_size, b.size) (allocated bs)
      (from_later next end (b.addr + header_size, b.size) (allocated bs) (omega arith)
        (allocated_in next end bs (omega arith) t))
      (allocated_apart next end bs (omega arith) t)
