-- ===== src/Memory/Heap/Free.antt =====
-- Freeing a payload of the kernel heap.
use arwill.Prelude.{
  ℕ, ◌+◌, ◌^◌, ◌<◌, ◌≡◌, refl, ap, ◌∙◌, subst, inl, inr, Bool, true, false, ◌&&◌, Bool-cases,
  if◌then◌else◌, List, [], ◌∷◌, arith,
}
use arwill.Memory.Heap.{header_size, Block, merge, coalesce_from, coalesce}
use arwill.Memory.Heap.Invariant.{Tiled, Tiled-le, in_use, Settled, allocated}

-- what merging neighbours keeps of the blocks `bs`: the tiling, the payloads and the use
pub record Merged (start end : ℕ) (bs bs' : List Block) : Type 0 where
  pub tiled : Tiled start end bs'
  pub same_allocated : allocated bs' ≡ allocated bs
  pub same_use : in_use bs' ≡ in_use bs

merge_size :
    (start end : ℕ) (a b : Block) (rest : List Block)
    → end < 2 ^ 64
    → Tiled start end (a ∷ b ∷ rest)
    → (merge a b).size ≡ a.size + header_size + b.size
merge_size start end a b rest word t =
    omega
      (arith, t.0, Tiled-le (start + header_size + a.size + header_size + b.size) end rest t.3.3)

both_free : (f g : Bool) → (f && g) ≡ true → (f ≡ true) × (g ≡ true)
both_free f g h = ground arith

merged-Tiled :
    (start end : ℕ) (a b : Block) (rest : List Block)
    → end < 2 ^ 64
    → Tiled start end (a ∷ b ∷ rest)
    → Tiled start end (merge a b ∷ rest)
merged-Tiled start end a b rest word t =
    let size = merge_size start end a b rest word t in
    (
      t.0,
      omega (arith, size, t.1, t.3.1),
      omega (arith, size, t.2),
      subst (λ k. Tiled k end rest) (omega (arith, size)) t.3.3,
    )

merge_step :
    (start end : ℕ) (a b : Block) (rest bs' : List Block)
    → (a.free && b.free) ≡ true
    → Merged start end (merge a b ∷ rest) bs'
    → Merged start end (a ∷ b ∷ rest) bs'
merge_step start end a b rest bs' both h =
    let (fa, fb) = both_free a.free b.free both in
    record {
      tiled = h.tiled;
      same_allocated = h.same_allocated ∙ rw (fa, fb) refl;
      same_use = h.same_use ∙ rw (fa, fb) (omega arith);
    }

keep_step :
    (start end : ℕ) (a b : Block) (rest bs' : List Block)
    → Tiled start end (a ∷ b ∷ rest)
    → Merged (start + header_size + a.size) end (b ∷ rest) bs'
    → Merged start end (a ∷ b ∷ rest) (a ∷ bs')
keep_step start end a b rest bs' t h = record {
  tiled = (t.0, t.1, t.2, h.tiled);
  same_allocated =
      ap (λ l. if a.free then l else (a.addr + header_size, a.size) ∷ l) h.same_allocated;
  same_use = ap (λ n. (if a.free then 0 else a.size) + n) h.same_use;
}

coalesce_from-Merged :
    (start end : ℕ) (a : Block) (rest : List Block)
    → end < 2 ^ 64
    → Tiled start end (a ∷ rest)
    → Merged start end (a ∷ rest) (coalesce_from a rest)
unfolding coalesce_from
coalesce_from-Merged start end a [] word t = record {
  tiled = t;
  same_allocated = refl;
  same_use = refl;
}
coalesce_from-Merged start end a (b ∷ rest) word t = elim (Bool-cases (a.free && b.free)) [
  | inl both ↦ rw both (
      merge_step start end a b rest (coalesce_from (merge a b) rest) both (
        coalesce_from-Merged start end (merge a b) rest word
          (merged-Tiled start end a b rest word t)))
  | inr either ↦ rw either (
      keep_step start end a b rest (coalesce_from b rest) t
        (coalesce_from-Merged (start + header_size + a.size) end b rest word t.3))
]

coalesce_from-Settled :
    (before : Bool) (a : Block) (rest : List Block)
    → (before && a.free) ≡ false
    → Settled before (coalesce_from a rest)
unfolding coalesce_from
coalesce_from-Settled before a [] h = (h, tt)
coalesce_from-Settled before a (b ∷ rest) h = elim (Bool-cases (a.free && b.free)) [
  | inl both ↦ rw both (coalesce_from-Settled before (merge a b) rest h)
  | inr either ↦ rw either (h, coalesce_from-Settled a.free b rest either)
]

-- Merging keeps the tiling, the allocated payloads and the bytes in use.
pub coalesce-Merged :
    (start end : ℕ) (bs : List Block)
    → end < 2 ^ 64
    → Tiled start end bs
    → Merged start end bs (coalesce bs)
unfolding coalesce
coalesce-Merged start end [] word t = record { tiled = t; same_allocated = refl; same_use = refl }
coalesce-Merged start end (a ∷ rest) word t = coalesce_from-Merged start end a rest word t

-- Whatever the blocks are, merging leaves no two free neighbours.
pub coalesce-Settled : (bs : List Block) → Settled false (coalesce bs)
unfolding coalesce
coalesce-Settled [] = tt
coalesce-Settled (a ∷ rest) = coalesce_from-Settled false a rest refl
