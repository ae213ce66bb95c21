-- ===== src/Memory/Pages.antt =====
-- The allocator of physical pages of kernel/memory.c. The array of ranges is the list of those that
-- are in use, so `range_count` is its length.
pub mod Safety
pub mod Account
pub mod Boot
use arwill.Prelude.{
  ℕ, zero, suc, ◌+◌, ◌-◌, ◌/◌, ◌^◌, Bool, true, false, not, ◌||◌, if◌then◌else◌, ◌==◌, ltb, leb,
  u64, Option, none, some, List, [], ◌∷◌, ◌++◌, length,
}
use arwill.Memory.Words.{align_down, align_up, saturating_add}

abbrev pub page_size : ℕ
page_size = 4096

abbrev pub range_capacity : ℕ
range_capacity = 64

-- `enum arwill_memory_region_type`
pub data RegionType : Type 0 where
  usable reserved acpi_reclaimable acpi_nvs bad_memory bootloader_reclaimable : RegionType
  executable_and_modules framebuffer reserved_mapped unknown : RegionType

abbrev pub is_usable : RegionType → Bool
is_usable usable = true
is_usable _ = false

-- `struct arwill_memory_region`; the last field is its `type`.
pub record Region : Type 0 where
  pub base : ℕ
  pub length : ℕ
  pub kind : RegionType

-- `struct arwill_physical_allocator_range`
pub record Range : Type 0 where
  pub next : ℕ
  pub end : ℕ

-- `struct arwill_physical_allocator`
pub record Allocator : Type 0 where
  pub ranges : List Range
  pub total_pages : ℕ
  pub free_pages : ℕ
  pub allocated_pages : ℕ
  pub allocation_count : ℕ

abbrev pub empty : Allocator
empty = record {
  ranges = [];
  total_pages = 0;
  free_pages = 0;
  allocated_pages = 0;
  allocation_count = 0;
}

abbrev pub region_start : Region → ℕ
region_start r = align_up r.base page_size

abbrev pub region_end : Region → ℕ
region_end r = align_down (saturating_add r.base r.length) page_size

-- one round of the loop of `physical_allocator_init`
unfoldable pub add_region : Allocator → Region → Allocator
add_region a r =
    let start = region_start r in
    let end = region_end r in
    let pages = (end - start) / page_size in
    if not (is_usable r.kind)
    then a
    else if leb end start
    then a
    else if leb range_capacity (length a.ranges)
    then a
    else record a {
      ranges = a.ranges ++ record { next = start; end = end } ∷ [];
      total_pages = u64 (a.total_pages + pages);
      free_pages = u64 (a.free_pages + pages);
    }

unfoldable pub add_regions : Allocator → List Region → Allocator
add_regions a [] = a
add_regions a (r ∷ rs) = add_regions (add_region a r) rs

-- `physical_allocator_init`
unfoldable pub init : List Region → Allocator
init regions = add_regions empty regions

-- The loop of `arwill_physical_allocate_page` over the ranges: the page and the ranges it leaves.
unfoldable pub take_page : List Range → Option (ℕ × List Range)
take_page [] = none
take_page (r ∷ rs) =
    let rest = take_page rs in
    if leb r.end r.next
    then elim rest [ none ↦ none | some (page, rs') ↦ some (page, r ∷ rs') ]
    else some (r.next, record r { next = u64 (r.next + page_size) } ∷ rs)

-- `arwill_physical_allocate_page`; `none` is its result 0.
unfoldable pub allocate_page : Allocator → Option (ℕ × Allocator)
allocate_page a = elim (take_page a.ranges) [
  | none ↦ none
  | some (page, rs) ↦ some (
    page,
    record a {
      ranges = rs;
      free_pages = u64 (a.free_pages + 2 ^ 64 - 1);
      allocated_pages = u64 (a.allocated_pages + 1);
      allocation_count = u64 (a.allocation_count + 1);
    },
  )
]
