-- ===== src/Memory/Heap.antt =====
-- The kernel heap of kernel/memory.c. The headers that `heap_first_block` and `next` chain in memory
-- are a list of blocks with their addresses; the chain ends where `next` is null.
pub mod Invariant
pub mod Allocate
pub mod Kmalloc
pub mod Free
pub mod Kfree
use arwill.Prelude.{
  ℕ, zero, suc, ◌+◌, ◌-◌, ◌*◌, ◌/◌, ◌^◌, Bool, true, false, not, ◌&&◌, ◌||◌, if◌then◌else◌, ◌==◌,
  ltb, leb, u64, uint64_max, Option, none, some, List, [], ◌∷◌,
}
use arwill.Memory.Words.{align_up}
use arwill.Memory.Pages.{page_size, Allocator, allocate_page}

abbrev pub heap_alignment : ℕ
heap_alignment = 16

-- `heap_payload_offset`: `align_size_up(sizeof(struct heap_block), heap_alignment)`, where the
-- structure takes 24 bytes on x86-64.
abbrev pub header_size : ℕ
header_size = 32

-- `struct heap_block` at the address `addr`
pub record Block : Type 0 where
  pub addr : ℕ
  pub size : ℕ
  pub free : Bool

-- `struct arwill_kernel_heap`, with the blocks that its base chains
pub record Heap : Type 0 where
  pub base : ℕ
  pub blocks : List Block
  pub size_bytes : ℕ
  pub used_bytes : ℕ
  pub allocation_count : ℕ
  pub free_count : ℕ
  pub failed_allocation_count : ℕ
  pub initialized : Bool

-- `block` swallows the free block behind it.
abbrev pub merge : Block → Block → Block
merge a b = record a { size = u64 (a.size + u64 (header_size + b.size)) }

-- The loop of `heap_coalesce`, from one block on.
unfoldable pub coalesce_from : Block → List Block → List Block
coalesce_from a [] = a ∷ []
coalesce_from a (b ∷ rest) =
    let both = a.free && b.free in
    let tail = coalesce_from (if both then merge a b else b) rest in if both then tail else a ∷ tail

-- `heap_coalesce`
unfoldable pub coalesce : List Block → List Block
coalesce [] = []
coalesce (a ∷ rest) = coalesce_from a rest

-- What `arwill_kmalloc` makes of the first free block that is large enough, and how many bytes of it
-- are in use then: the block is split where the rest can hold a block of its own.
unfoldable pub carve : ℕ → Block → List Block → List Block
carve size b rest =
    if leb (u64 (u64 (size + header_size) + heap_alignment)) b.size
    then record b { size = size; free = false }
      ∷ record {
        addr = u64 (b.addr + header_size + size);
        size = b.size - size - header_size;
        free = true;
      }
      ∷ rest
    else record b { free = false } ∷ rest

unfoldable pub carved_size : ℕ → Block → ℕ
carved_size size b =
    if leb (u64 (u64 (size + header_size) + heap_alignment)) b.size then size else b.size

-- The search of `arwill_kmalloc`: the payload's address, the bytes it takes, and the blocks it leaves.
unfoldable pub first_fit : ℕ → List Block → Option (ℕ × ℕ × List Block)
first_fit size [] = none
first_fit size (b ∷ rest) =
    let others = first_fit size rest in
    if not b.free || ltb b.size size
    then elim others [ none ↦ none | some (p, used, rest') ↦ some (p, used, b ∷ rest') ]
    else some (u64 (b.addr + header_size), carved_size size b, carve size b rest)

-- `memory->kernel_heap.failed_allocation_count++`
abbrev pub failed : Heap → Heap
failed h = record h { failed_allocation_count = u64 (h.failed_allocation_count + 1) }

-- `arwill_kmalloc`; `none` is a null pointer.
unfoldable pub kmalloc : Heap → ℕ → Option ℕ × Heap
kmalloc h size =
    let aligned_size = align_up size heap_alignment in
    if not h.initialized || size == 0
    then (none, h)
    else if aligned_size == uint64_max
    then (none, failed h)
    else elim (first_fit aligned_size h.blocks) [
      | none ↦ (none, failed h)
      | some (p, used, blocks) ↦ (
        some p,
        record h {
          blocks = blocks;
          used_bytes = u64 (h.used_bytes + used);
          allocation_count = u64 (h.allocation_count + 1);
        },
      )
    ]

-- The block whose header stands at `a`, and the blocks with it marked free.
unfoldable pub block_at : ℕ → List Block → Option Block
block_at a [] = none
block_at a (b ∷ rest) = let later = block_at a rest in if b.addr == a then some b else later

unfoldable pub set_free : ℕ → List Block → List Block
set_free a [] = []
set_free a (b ∷ rest) =
    let rest' = set_free a rest in
    if b.addr == a then record b { free = true } ∷ rest else b ∷ rest'

-- `arwill_kfree` of a pointer that is not null, on an initialised heap. The outcome `none` is a read
-- of memory that holds no block's header, which C leaves undefined.
unfoldable pub kfree : Heap → ℕ → Option Heap
kfree h pointer =
    if not h.initialized || pointer == 0
    then some h
    else elim (block_at (u64 (pointer + 2 ^ 64 - header_size)) h.blocks) [
      | none ↦ none
      | some b ↦
          (if b.free
            then some h
            else some (record h {
              blocks = coalesce (set_free b.addr h.blocks);
              used_bytes = if leb b.size h.used_bytes then h.used_bytes - b.size else 0;
              free_count = u64 (h.free_count + 1);
            }))
    ]

-- The loop of `arwill_kernel_heap_init`: whether `n` more pages came, each next to the one before, the
-- first page, and the allocator that it leaves.
unfoldable pub take_pages : ℕ → ℕ → ℕ → ℕ → Allocator → Bool × ℕ × Allocator
take_pages zero index first previous a = (true, first, a)
take_pages (suc n) index first previous a = elim (allocate_page a) [
  | none ↦ (false, first, a)
  | some (page, a') ↦
      (let rest = take_pages n (index + 1) (if index == 0 then page else first) page a' in
        if not (index == 0) && not (page == u64 (previous + page_size))
        then (false, first, a')
        else rest)
]

-- `arwill_kernel_heap_init`
unfoldable pub heap_init : Heap → Allocator → ℕ → ℕ → Bool × Heap × Allocator
heap_init h a hhdm_offset page_count =
    if hhdm_offset == 0 || page_count == 0
    then (false, h, a)
    else if h.initialized
    then (true, h, a)
    else if ltb (uint64_max / page_size) page_count
    then (false, h, a)
    else let (got, first, a') = take_pages page_count 0 0 0 a in
      let heap_size = page_count * page_size in
      let start = u64 (hhdm_offset + first) in
      if not got then (false, h, a') else (
        true,
        record {
          base = start;
          blocks = record { addr = start; size = heap_size - header_size; free = true } ∷ [];
          size_bytes = heap_size;
          used_bytes = 0;
          allocation_count = 0;
          free_count = 0;
          failed_allocation_count = 0;
          initialized = true;
        },
        a',
      )
