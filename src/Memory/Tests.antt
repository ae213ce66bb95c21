-- ===== src/Memory/Tests.antt =====
-- The theorems of kernel/memory.c at a small machine.
use arwill.Prelude.{◌+◌, ◌≡◌, refl, inl, true, false, some, List, [], ◌∷◌, All, arith}
use arwill.Memory.Words.{align_up, align_down, saturating_add}
use arwill.Memory.Pages
use arwill.Memory.Pages.{
  Region, usable, reserved, Range, Allocator, add_regions, add_region, take_page, allocate_page,
}
use arwill.Memory.Pages.Account.{IsValid as PagesAreValid, Handed, allocate_many, allocate_many_lem}
use arwill.Memory.Pages.Boot.{Backed, init_lem}
use arwill.Memory.Heap.{Heap, kmalloc, first_fit, carve, carved_size, kfree, header_size}
use arwill.Memory.Heap.Invariant.{IsValid, allocated}
use arwill.Memory.Heap.Kmalloc.{Granted, kmalloc_lem}
use arwill.Memory.Heap.Kfree.{kfree_lem, kmalloc-kfree}

abbrev machine : List Region
machine =
    record { base = 100; length = 20000; kind = usable }
    ∷ record { base = 65536; length = 8192; kind = reserved }
    ∷ record { base = 131072; length = 8192; kind = usable }
    ∷ []

init_lem_example :
    let a = Pages.init machine in
    PagesAreValid a × (a.allocated_pages ≡ 0) × All (Backed machine) a.ranges
init_lem_example = init_lem machine (omega arith) (omega arith)

-- The first region holds three whole pages, at 4096, 8192 and 12288.
booted : (Pages.init machine).total_pages ≡ 5
unfolding Pages.init add_regions add_region align_up align_down saturating_add
booted = refl

abbrev two_ranges : Allocator
two_ranges = record {
  ranges = record { next = 4096; end = 8192 } ∷ record { next = 131072; end = 139264 } ∷ [];
  total_pages = 3;
  free_pages = 3;
  allocated_pages = 0;
  allocation_count = 0;
}

two_ranges-IsValid : PagesAreValid two_ranges
two_ranges-IsValid = record {
  aligned = omega arith;
  disjoint = omega arith;
  free_exact = refl;
  total_exact = refl;
  total_word = omega arith;
}

allocate_many_lem_example : Handed 2 two_ranges (allocate_many 2 two_ranges)
allocate_many_lem_example = allocate_many_lem 2 two_ranges two_ranges-IsValid

header_size_is : align_up 24 16 ≡ header_size
unfolding align_up
header_size_is = refl

abbrev one_page : Heap
one_page = record {
  base = 4096;
  blocks = record { addr = 4096; size = 4064; free = true } ∷ [];
  size_bytes = 4096;
  used_bytes = 0;
  allocation_count = 0;
  free_count = 0;
  failed_allocation_count = 0;
  initialized = true;
}

one_page-IsValid : IsValid one_page
one_page-IsValid = record {
  tiled = omega arith;
  base_aligned = refl;
  base_pos = omega arith;
  end_word = omega arith;
  used_exact = refl;
  settled = (refl, tt);
}

abbrev one_payload : Heap
one_payload = record one_page {
  blocks =
      record { addr = 4096; size = 112; free = false }
      ∷ record { addr = 4240; size = 3920; free = true }
      ∷ [];
  used_bytes = 112;
  allocation_count = 1;
}

one_payload-IsValid : IsValid one_payload
one_payload-IsValid = record {
  tiled = omega arith;
  base_aligned = refl;
  base_pos = omega arith;
  end_word = omega arith;
  used_exact = refl;
  settled = (refl, (refl, tt));
}

kmalloc_100 : kmalloc one_page 100 ≡ (some 4128, one_payload)
unfolding kmalloc first_fit carve carved_size align_up
kmalloc_100 = refl

kmalloc_lem_example : IsValid (kmalloc one_page 100).1 × Granted one_page 100 (kmalloc one_page 100)
kmalloc_lem_example = kmalloc_lem one_page 100 one_page-IsValid refl (omega arith) (omega arith)

kfree_lem_example :
    (h : Heap) × (kfree one_payload 4128 ≡ some h)
    × IsValid h
    × (allocated h.blocks ≡ [])
    × (112 ≡ h.used_bytes + 112)
kfree_lem_example = kfree_lem one_payload 4128 112 [] one_payload-IsValid refl (inl (refl, refl))

kmalloc-kfree_example :
    (h : Heap) × (kfree one_payload 4128 ≡ some h)
    × IsValid h
    × (allocated h.blocks ≡ [])
    × (h.used_bytes ≡ 0)
kmalloc-kfree_example =
    kmalloc-kfree one_page 100 4128 one_payload one_page-IsValid refl (omega arith) (omega arith)
      kmalloc_100
