-- ===== src/Memory/Heap/Kmalloc.antt =====
-- `arwill_kmalloc` on a well-formed heap.
use arwill.Prelude.{
  ℕ, ◌+◌, ◌-◌, ◌≤◌, ◌<◌, ◌≡◌, refl, true, false, not, ◌||◌, u64, uint64_max, ◌==◌, Option, none,
  some, List, [], ◌∷◌, All, arith,
}
use arwill.Memory.Words.{align_up, align_up-heap, align_up-heap_exact}
use arwill.Memory.Heap.{header_size, heap_alignment, Block, Heap, first_fit, failed, kmalloc}
use arwill.Memory.Heap.Invariant.{Tiled, in_use, IsValid, allocated}
use arwill.Memory.Heap.Allocate.{Insert, Search, TooSmall, first_fit_lem}

-- what `arwill_kmalloc` of `size` bytes promises of a heap `h`
abbrev pub Granted : Heap → ℕ → Option ℕ × Heap → Type 0
Granted h size (none, h') = (h' ≡ failed h) × All (TooSmall (align_up size heap_alignment)) h.blocks
Granted h size (some p, h') =
    (used : ℕ) × (size ≤ used)
    × Insert (p, used) (allocated h.blocks) (allocated h'.blocks)
    × (h'.used_bytes ≡ h.used_bytes + used)

-- the heap after a search that found room
abbrev granted_heap : Heap → ℕ → List Block → Heap
granted_heap h used blocks = record h {
  blocks = blocks;
  used_bytes = u64 (h.used_bytes + used);
  allocation_count = u64 (h.allocation_count + 1);
}

in_use-le : (start end : ℕ) (bs : List Block) → Tiled start end bs → start + in_use bs ≤ end
in_use-le start end [] t = omega arith
in_use-le start end (b ∷ bs) (a, m, p, t) =
    ground (arith, in_use-le (start + header_size + b.size) end bs t)

failed-IsValid : (h : Heap) → IsValid h → IsValid (failed h)
failed-IsValid h v = record {
  tiled = v.tiled;
  base_aligned = v.base_aligned;
  base_pos = v.base_pos;
  end_word = v.end_word;
  used_exact = v.used_exact;
  settled = v.settled;
}

-- the result of `kmalloc` from that of the search
abbrev outcome : Heap → Option (ℕ × ℕ × List Block) → Option ℕ × Heap
outcome h o = elim o [
  | none ↦ (none, failed h)
  | some (p, used, blocks) ↦ (some p, granted_heap h used blocks)
]

grant :
    (h : Heap) (size : ℕ) (o : Option (ℕ × ℕ × List Block))
    → IsValid h
    → size ≤ align_up size heap_alignment
    → Search h.base (h.base + h.size_bytes) (align_up size heap_alignment) h.blocks o
    → IsValid (outcome h o).1 × Granted h size (outcome h o)
grant h size none v le all = (failed-IsValid h v, (refl, all))
grant h size (some (p, used, blocks)) v le f =
    let bound = in_use-le h.base (h.base + h.size_bytes) blocks f.tiled in
    let exact : u64 (h.used_bytes + used) ≡ h.used_bytes + used =
      omega (arith, bound, f.counted, v.used_exact, v.end_word) in
    (
      record {
        tiled = f.tiled;
        base_aligned = v.base_aligned;
        base_pos = v.base_pos;
        end_word = v.end_word;
        used_exact = omega (arith, exact, f.counted, v.used_exact);
        settled = f.settled false v.settled;
      },
      (used, omega (arith, le, f.enough), f.inserted, exact),
    )

-- On a well-formed initialised heap a request of 1 to 2^64 - 16 bytes leaves the heap well-formed,
-- and either adds one payload of at least that size to those that are allocated, returns its address
-- and counts it, or changes nothing but the count of failures; the latter only where every block is in
-- use or smaller than the request rounded up to 16 bytes.
pub kmalloc_lem :
    (h : Heap) (size : ℕ)
    → IsValid h
    → h.initialized ≡ true
    → 0 < size
    → size ≤ uint64_max - 15
    → IsValid (kmalloc h size).1 × Granted h size (kmalloc h size)
unfolding kmalloc
kmalloc_lem h size v ready pos small =
    let up = (align_up-heap size (omega arith)).0 in
    let mult = align_up-heap_exact size small in
    let aligned = align_up size heap_alignment in
    let no_max : (aligned == uint64_max) ≡ false = ground (arith, mult) in
    let asked : (not h.initialized || size == 0) ≡ false = ground arith in
    rw (asked, no_max)
      (grant h size (first_fit aligned h.blocks) v up (
        first_fit_lem h.base (h.base + h.size_bytes) aligned h.blocks mult (omega (arith, up))
          (omega arith) v.end_word v.tiled))
