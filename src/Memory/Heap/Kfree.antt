-- ===== src/Memory/Heap/Kfree.antt =====
-- `arwill_kfree` on a well-formed heap.
use arwill.Prelude.{
  ℕ, ◌+◌, ◌-◌, ◌%◌, ◌^◌, ◌≤◌, ◌<◌, ◌≡◌, refl, sym, ap, ◌∙◌, subst, inl, inr, Bool, true, false, not,
  ◌||◌, leb, u64, uint64_max, le→leb, if◌then◌else◌, ◌==◌, some, List, [], ◌∷◌, All, arith,
}
use arwill.Memory.Heap.Kmalloc.{Granted, kmalloc_lem}
use arwill.Memory.Heap.{kmalloc, header_size, Block, Heap, coalesce, block_at, set_free, kfree}
use arwill.Memory.Heap.Invariant.{Tiled, in_use, Settled, IsValid, allocated, allocated_in, AreaIn}
use arwill.Memory.Heap.Allocate.{Insert}
use arwill.Memory.Heap.Free.{coalesce-Merged, coalesce-Settled}

-- the block of the payload `p` of `n` bytes, beside which the payloads `l` are allocated
record Found (start end p n : ℕ) (l : List (ℕ × ℕ)) (bs : List Block) : Type 0 where
  block : Block
  at_header : block_at (p - header_size) bs ≡ some block
  in_its_place : block.addr + header_size ≡ p
  its_size : block.size ≡ n
  not_free : block.free ≡ false
  tiled : Tiled start end (set_free block.addr bs)
  others : allocated (set_free block.addr bs) ≡ l
  used : in_use bs ≡ in_use (set_free block.addr bs) + n

member_in :
    (s e : ℕ) (x : ℕ × ℕ) (l l' : List (ℕ × ℕ)) → Insert x l l' → All (AreaIn s e) l' → AreaIn s e x
member_in s e x l [] i h = absurd i
member_in s e x l (y ∷ r) (inl i) h = subst (λ z. AreaIn s e z) (sym i.0) h.0
member_in s e x l (y ∷ r) (inr i) h = member_in s e x i.0 r i.2 h.1

module _ (start end p n : ℕ) (b : Block) (rest : List Block) (t : Tiled start end (b ∷ rest)) where
  -- The payload is of the first block.
  Found-here :
      (l : List (ℕ × ℕ))
      → b.free ≡ false
      → b.addr + header_size ≡ p
      → b.size ≡ n
      → l ≡ allocated rest
      → Found start end p n l (b ∷ rest)
  unfolding block_at set_free
  Found-here l busy here size e =
      let this : (b.addr == (p - header_size)) ≡ true = ground arith in
      let self : (b.addr == b.addr) ≡ true = ground arith in
      record {
        block = b;
        at_header = rw this refl;
        in_its_place = here;
        its_size = size;
        not_free = busy;
        tiled = rw self t;
        others = rw self (sym e);
        used = rw (self, busy) (omega arith);
      }

  -- The payload is of a later block; the first is left alone.
  Found-later :
      (l : List (ℕ × ℕ))
      → (f : Found (start + header_size + b.size) end p n l rest)
      → start + header_size + b.size ≤ p - header_size
      → Found start end p n (if b.free then l else (b.addr + header_size, b.size) ∷ l) (b ∷ rest)
  unfolding block_at set_free
  Found-later l f beyond =
      let not_this : (b.addr == (p - header_size)) ≡ false = ground (arith, t.0) in
      let not_its : (b.addr == f.block.addr) ≡ false = ground (arith, t.0, f.in_its_place) in
      record {
        block = f.block;
        at_header = rw not_this f.at_header;
        in_its_place = f.in_its_place;
        its_size = f.its_size;
        not_free = f.not_free;
        tiled = rw not_its (t.0, t.1, t.2, f.tiled);
        others =
            rw not_its
              (ap (λ m. if b.free then m else (b.addr + header_size, b.size) ∷ m) f.others);
        used = rw not_its (omega (arith, f.used));
      }

  choose :
      (f : Bool) (l : List (ℕ × ℕ))
      → b.free ≡ f
      → All (AreaIn (start + header_size + b.size) end) (allocated rest)
      → Insert
          (p, n)
          l
          (if f then allocated rest else (b.addr + header_size, b.size) ∷ allocated rest)
      → ((l' : List (ℕ × ℕ))
          → Insert (p, n) l' (allocated rest)
          → Found (start + header_size + b.size) end p n l' rest)
      → Found start end p n l (b ∷ rest)
  choose true l e inside i ih =
      let where_it_is =
        member_in (start + header_size + b.size) end (p, n) l (allocated rest) i inside in
      subst (λ m. Found start end p n m (b ∷ rest)) (rw e refl)
        (Found-later l (ih l i) (omega (arith, where_it_is)))
  choose false l e inside (inl (q, same)) ih =
      Found-here l e (sym (ap (λ z. z.0) q)) (sym (ap (λ z. z.1) q)) same
  choose false l e inside (inr (l', same, i)) ih =
      let where_it_is =
        member_in (start + header_size + b.size) end (p, n) l' (allocated rest) i inside in
      subst (λ m. Found start end p n m (b ∷ rest)) (rw e (sym same))
        (Found-later l' (ih l' i) (omega (arith, where_it_is)))

find :
    (start end p n : ℕ) (l : List (ℕ × ℕ)) (bs : List Block)
    → start % 16 ≡ 0
    → Tiled start end bs
    → Insert (p, n) l (allocated bs)
    → Found start end p n l bs
find start end p n l [] m t i = absurd i
find start end p n l (b ∷ rest) m t i =
    let next = start + header_size + b.size in
    choose start end p n b rest t b.free l refl
      (allocated_in next end rest (omega (arith, t.1)) t.3) i
      (λ l' i'. find next end p n l' rest (omega (arith, t.1)) t.3 i')

-- On a well-formed initialised heap, the free of an allocated payload succeeds, leaves the heap
-- well-formed with exactly the other payloads allocated, and counts its bytes as free again.
pub kfree_lem :
    (h : Heap) (p n : ℕ) (l : List (ℕ × ℕ))
    → IsValid h
    → h.initialized ≡ true
    → Insert (p, n) l (allocated h.blocks)
    → (h' : Heap) × (kfree h p ≡ some h')
      × IsValid h'
      × (allocated h'.blocks ≡ l)
      × (h.used_bytes ≡ h'.used_bytes + n)
unfolding kfree
kfree_lem h p n l v ready i =
    let f = find h.base (h.base + h.size_bytes) p n l h.blocks v.base_aligned v.tiled i in
    let inside =
      member_in h.base (h.base + h.size_bytes) (p, n) l (allocated h.blocks) i
        (allocated_in h.base (h.base + h.size_bytes) h.blocks v.base_aligned v.tiled) in
    let c =
      coalesce-Merged h.base (h.base + h.size_bytes) (set_free f.block.addr h.blocks) v.end_word
        f.tiled in
    let live : (not h.initialized || p == 0) ≡ false = ground (arith, inside) in
    let header : u64 (p + 2 ^ 64 - header_size) ≡ p - header_size =
      omega (arith, inside, v.end_word) in
    let counted : leb f.block.size h.used_bytes ≡ true =
      le→leb f.block.size h.used_bytes (omega (arith, f.used, f.its_size, v.used_exact)) in
    let rest = set_free f.block.addr h.blocks in
    (
      record h {
        blocks = coalesce rest;
        used_bytes = h.used_bytes - f.block.size;
        free_count = u64 (h.free_count + 1);
      },
      rw (live, header, f.at_header, f.not_free, counted) refl,
      record {
        tiled = c.tiled;
        base_aligned = v.base_aligned;
        base_pos = v.base_pos;
        end_word = v.end_word;
        used_exact = omega (arith, c.same_use, f.used, f.its_size, v.used_exact);
        settled = coalesce-Settled rest;
      },
      c.same_allocated ∙ f.others,
      omega (arith, f.used, f.its_size, v.used_exact),
    )

-- A second free of a block, while its header stands, changes nothing.
pub kfree_again :
    (h : Heap) (p : ℕ) (b : Block)
    → block_at (u64 (p + 2 ^ 64 - header_size)) h.blocks ≡ some b
    → b.free ≡ true
    → kfree h p ≡ some h
unfolding kfree
kfree_again h p b found e = ground arith

kmalloc-initialized : (h : Heap) (size : ℕ) → (kmalloc h size).1.initialized ≡ h.initialized
unfolding kmalloc
kmalloc-initialized h size = ground arith

-- An allocation that is freed at once leaves the same payloads allocated and the same bytes in use.
pub kmalloc-kfree :
    (h : Heap) (size p : ℕ) (h' : Heap)
    → IsValid h
    → h.initialized ≡ true
    → 0 < size
    → size ≤ uint64_max - 15
    → kmalloc h size ≡ (some p, h')
    → (h'' : Heap) × (kfree h' p ≡ some h'')
      × IsValid h''
      × (allocated h''.blocks ≡ allocated h.blocks)
      × (h''.used_bytes ≡ h.used_bytes)
kmalloc-kfree h size p h' v ready pos small e =
    let ready' = sym (ap (λ r. r.1.initialized) e) ∙ kmalloc-initialized h size ∙ ready in
    let (v', g) =
      subst (λ r. IsValid r.1 × Granted h size r) e (kmalloc_lem h size v ready pos small) in
    let (used, enough, inserted, counted) = g in
    let (h'', done, v'', others, less) =
      kfree_lem h' p used (allocated h.blocks) v' ready' inserted in
    (h'', done, v'', others, omega (arith, counted, less))

all_free :
    (b : Block) (rest : List Block)
    → allocated (b ∷ rest) ≡ []
    → (b.free ≡ true) × (allocated rest ≡ [])
all_free b rest e = ground arith

one_block :
    (start end : ℕ) (bs : List Block)
    → start < end
    → Tiled start end bs
    → Settled false bs
    → allocated bs ≡ []
    → bs ≡ record { addr = start; size = end - start - header_size; free = true } ∷ []
one_block start end [] lt t s e = absurd (omega arith)
one_block start end (b ∷ []) lt t s e = ground (arith, all_free b [] e)
one_block start end (b ∷ c ∷ rest) lt t s e =
    let (fb, e') = all_free b (c ∷ rest) e in
    let (fc, e'') = all_free c rest e' in ground (arith, s.1.0)

-- A well-formed heap in which nothing is allocated is one free block again.
pub nothing_allocated :
    (h : Heap)
    → IsValid h
    → 0 < h.size_bytes
    → allocated h.blocks ≡ []
    → h.blocks ≡ record { addr = h.base; size = h.size_bytes - header_size; free = true } ∷ []
nothing_allocated h v pos none_left =
    one_block h.base (h.base + h.size_bytes) h.blocks (omega arith) v.tiled v.settled none_left
    ∙ ap (λ k. record { addr = h.base; size = k; free = true } ∷ []) (omega arith)
