-- ===== src/Memory/Pages/Boot.antt =====
-- The page allocator that `physical_allocator_init` makes of the boot loader's memory map.
use arwill.Prelude.{
  ◌+◌, ◌-◌, ◌*◌, ◌/◌, ◌%◌, ◌^◌, ◌≤◌, ◌<◌, ◌≡◌, refl, ap, ◌⊎◌, inl, inr, true, Bool-cases, le→leb,
  lt→leb_false, u64, uint64_max, List, [], ◌∷◌, ◌++◌, length, All, Any, arith,
}
use native.Mathlib.Decide.{dec_le}
use arwill.Prelude.Lists.{length-append, All-snoc, All-map}
use arwill.Memory.Words.{saturating_add, align_up-page, align_down-page, saturating_add_lem}
use arwill.Memory.Pages.{
  Region, RegionType, init, Range, Allocator, usable, is_usable, empty, region_start, region_end,
  range_capacity, add_region, add_regions,
}
use arwill.Memory.Pages.Safety.{IsAligned, Apart, Disjoint, pages_left}
use arwill.Memory.Pages.Account.{IsValid}

-- the map's entries are 64-bit words
abbrev pub Words : Region → Type 0
Words g = (g.base < 2 ^ 64) × (g.length < 2 ^ 64)

-- two entries of the map that do not overlap
abbrev pub RegionsApart : Region → Region → Type 0
RegionsApart g h = (g.base + g.length ≤ h.base) ⊎ (h.base + h.length ≤ g.base)

abbrev pub NoOverlap : List Region → Type 0
NoOverlap [] = Unit
NoOverlap (g ∷ gs) = All (RegionsApart g) gs × NoOverlap gs

-- the range lies in the region
abbrev pub Inside : Region → Range → Type 0
Inside g r = (g.base ≤ r.next) × (r.end ≤ g.base + g.length)

abbrev pub Backed : List Region → Range → Type 0
Backed gs r = Any (λ g. (g.kind ≡ usable) × Inside g r) gs

abbrev Clear : List Region → Range → Type 0
Clear gs r = All (λ g. (r.end ≤ g.base) ⊎ (g.base + g.length ≤ r.next)) gs

-- what holds after the regions before `gs`, all of which are among `whole`
record Built (whole gs : List Region) (a : Allocator) : Type 0 where
  aligned : All IsAligned a.ranges
  disjoint : Disjoint a.ranges
  clear : All (Clear gs) a.ranges
  backed : All (Backed whole) a.ranges
  among : (r : Range) → Backed gs r → Backed whole r
  few : length a.ranges ≤ range_capacity
  bound : pages_left a.ranges ≤ length a.ranges * 2 ^ 52
  free_exact : a.free_pages ≡ pages_left a.ranges
  total_exact : a.total_pages ≡ pages_left a.ranges
  none_allocated : a.allocated_pages ≡ 0

abbrev range_of : Region → Range
range_of g = record { next = region_start g; end = region_end g }

-- the range that a region becomes, if it holds a whole page
range_of_lem :
    (g : Region)
    → Words g
    → region_start g < region_end g
    → IsAligned (range_of g) × Inside g (range_of g)
range_of_lem g w lt =
    let up = align_up-page g.base w.0 in
    let down = align_down-page (saturating_add g.base g.length) in
    let added = saturating_add_lem g.base g.length w.0 w.1 in
    let start_word : region_start g < uint64_max = omega (arith, down.0, added.1) in
    let start_page : region_start g % 4096 ≡ 0 = up.3 (omega arith) in
    (
      record {
        next_page = start_page;
        end_page = down.1;
        end_word = omega (arith, down.0, added.1);
      },
      (up.0, omega (arith, down.0, added.0)),
    )

Disjoint-snoc :
    (rs : List Range) (r : Range) → Disjoint rs → All (λ s. Apart s r) rs → Disjoint (rs ++ r ∷ [])
Disjoint-snoc [] r d ap = (tt, tt)
Disjoint-snoc (s ∷ rs) r d ap = (All-snoc (Apart s) rs d.0 ap.0, Disjoint-snoc rs r d.1 ap.1)

pages_left-snoc :
    (rs : List Range) (r : Range)
    → pages_left (rs ++ r ∷ []) ≡ pages_left rs + (r.end - r.next) / 4096
pages_left-snoc [] r = omega arith
pages_left-snoc (s ∷ rs) r = omega (arith, pages_left-snoc rs r)

-- a region that adds nothing
drop_region :
    (whole : List Region) (g : Region) (gs : List Region) (a : Allocator)
    → Built whole (g ∷ gs) a
    → Built whole gs a
drop_region whole g gs a b = record {
  aligned = b.aligned;
  disjoint = b.disjoint;
  clear = All-map (λ r c. c.1) a.ranges b.clear;
  backed = b.backed;
  among = λ r x. b.among r (inr x);
  few = b.few;
  bound = b.bound;
  free_exact = b.free_exact;
  total_exact = b.total_exact;
  none_allocated = b.none_allocated;
}

keep_region :
    (whole : List Region) (g : Region) (gs : List Region) (a : Allocator)
    → Words g
    → All (RegionsApart g) gs
    → g.kind ≡ usable
    → region_start g < region_end g
    → length a.ranges < range_capacity
    → Built whole (g ∷ gs) a
    → let pages = (region_end g - region_start g) / 4096 in
      Built whole gs (record a {
        ranges = a.ranges ++ range_of g ∷ [];
        total_pages = u64 (a.total_pages + pages);
        free_pages = u64 (a.free_pages + pages);
      })
keep_region whole g gs a w apart k lt room b =
    let (ok, inside) = range_of_lem g w lt in
    let len = length-append a.ranges (range_of g ∷ []) in
    let left = pages_left-snoc a.ranges (range_of g) in
    record {
      aligned = All-snoc IsAligned a.ranges b.aligned ok;
      disjoint =
          Disjoint-snoc a.ranges (range_of g) b.disjoint
            (All-map (λ s c. omega (arith, c.0, inside)) a.ranges b.clear);
      clear =
          All-snoc (Clear gs) a.ranges (All-map (λ r c. c.1) a.ranges b.clear)
            (All-map (λ h x. omega (arith, x, inside)) gs apart);
      backed = All-snoc (Backed whole) a.ranges b.backed (b.among (range_of g) (inl (k, inside)));
      among = λ r x. b.among r (inr x);
      few = omega (arith, len);
      bound = omega (arith, len, left, b.bound, ok.end_word);
      free_exact = omega (arith, left, b.free_exact, b.bound, b.few, ok.end_word);
      total_exact = omega (arith, left, b.total_exact, b.bound, b.few, ok.end_word);
      none_allocated = b.none_allocated;
    }

is_usable_lem : (k : RegionType) → is_usable k ≡ true → k ≡ usable
is_usable_lem k h = ground arith

add_region-Built :
    (whole : List Region) (g : Region) (gs : List Region) (a : Allocator)
    → Words g
    → All (RegionsApart g) gs
    → Built whole (g ∷ gs) a
    → Built whole gs (add_region a g)
unfolding add_region
add_region-Built whole g gs a w apart b = elim (Bool-cases (is_usable g.kind)) [
  | inr no_use ↦ rw no_use (drop_region whole g gs a b)
  | inl use_it ↦ rw use_it (elim (dec_le (region_end g) (region_start g)) [
    | yes nothing ↦ rw (le→leb _ _ nothing) (drop_region whole g gs a b)
    | no pages ↦
        rw (lt→leb_false (region_end g) (region_start g) (omega arith))
          (elim (dec_le range_capacity (length a.ranges)) [
            | yes full ↦ rw (le→leb _ _ full) (drop_region whole g gs a b)
            | no room ↦ rw (lt→leb_false range_capacity (length a.ranges) (omega arith)) (
                keep_region whole g gs a w apart (is_usable_lem g.kind use_it) (omega arith)
                  (omega arith) b)
          ])
  ])
]

add_regions-Built :
    (whole gs : List Region) (a : Allocator)
    → All Words gs
    → NoOverlap gs
    → Built whole gs a
    → Built whole [] (add_regions a gs)
unfolding add_regions
add_regions-Built whole [] a w apart b = b
add_regions-Built whole (g ∷ gs) a w apart b =
    add_regions-Built whole gs (add_region a g) w.1 apart.1
      (add_region-Built whole g gs a w.0 apart.0 b)

-- From a memory map whose entries are 64-bit words and do not overlap, initialisation makes a
-- well-formed allocator with nothing allocated, each of whose ranges lies in a usable region.
pub init_lem :
    (gs : List Region)
    → All Words gs
    → NoOverlap gs
    → let a = init gs in IsValid a × (a.allocated_pages ≡ 0) × All (Backed gs) a.ranges
unfolding init
init_lem gs w apart =
    let b = add_regions-Built gs gs empty w apart (record {
      aligned = tt;
      disjoint = tt;
      clear = tt;
      backed = tt;
      among = λ r x. x;
      few = omega arith;
      bound = omega arith;
      free_exact = refl;
      total_exact = refl;
      none_allocated = refl;
    }) in
    (
      record {
        aligned = b.aligned;
        disjoint = b.disjoint;
        free_exact = b.free_exact;
        total_exact = omega (arith, b.free_exact, b.total_exact, b.none_allocated);
        total_word = omega (arith, b.total_exact, b.bound, b.few);
      },
      b.none_allocated,
      b.backed,
    )
