-- ===== src/Memory/Pages/Account.antt =====
-- The page allocator's counters, and what a run of allocations hands out.
use arwill.Prelude.{
  ℕ, zero, suc, ◌+◌, ◌-◌, ◌%◌, ◌∙◌, ◌^◌, ◌≤◌, ◌<◌, ◌≡◌, refl, ◌⊎◌, Option, none, some, List, [],
  ◌∷◌, length, All, u64, arith,
}
use Prim.Native.Nat.{min}
use arwill.Memory.Pages.{Range, Allocator, take_page, allocate_page}
use arwill.Memory.Pages.Safety.{
  IsAligned, Free, Disjoint, pages_left, Taken, Outcome, take_page_lem,
}

-- Ranges are whole pages and do not overlap; the counters say what is left and what was taken.
pub record IsValid (a : Allocator) : Type 0 where
  pub aligned : All IsAligned a.ranges
  pub disjoint : Disjoint a.ranges
  pub free_exact : a.free_pages ≡ pages_left a.ranges
  pub total_exact : a.allocated_pages + a.free_pages ≡ a.total_pages
  pub total_word : a.total_pages < 2 ^ 64

-- what an allocation promises of the allocator before it
abbrev pub Allocated : Allocator → Option (ℕ × Allocator) → Type 0
Allocated a none = a.free_pages ≡ 0
Allocated a (some (p, a')) =
    Taken a.ranges p a'.ranges
    × IsValid a'
    × (a.free_pages ≡ suc a'.free_pages)
    × (a'.allocated_pages ≡ suc a.allocated_pages)
    × (a'.total_pages ≡ a.total_pages)

finish :
    (a : Allocator) (o : Option (ℕ × List Range))
    → IsValid a
    → Outcome a.ranges o
    → Allocated a (elim o [
      | none ↦ none
      | some (page, rs) ↦ some (
        page,
        record a {
          ranges = rs;
          free_pages = u64 (a.free_pages + 2 ^ 64 - 1);
          allocated_pages = u64 (a.allocated_pages + 1);
          allocation_count = u64 (a.allocation_count + 1);
        },
      )
    ])
finish a none v out = v.free_exact ∙ out.0
finish a (some (p, rs)) v t = (
  t,
  record {
    aligned = t.aligned;
    disjoint = t.disjoint;
    free_exact = omega (arith, v.free_exact, t.one_less, v.total_exact, v.total_word);
    total_exact = omega (arith, v.free_exact, t.one_less, v.total_exact, v.total_word);
    total_word = v.total_word;
  },
  omega (arith, v.free_exact, t.one_less, v.total_exact, v.total_word),
  omega (arith, v.free_exact, t.one_less, v.total_exact, v.total_word),
  refl,
)

-- An allocation takes one free page of a well-formed allocator and leaves it well-formed, with the
-- counters moved by one; it fails only where no page is free.
pub allocate_page_lem : (a : Allocator) → IsValid a → Allocated a (allocate_page a)
unfolding allocate_page
allocate_page_lem a v =
    finish a (take_page a.ranges) v (take_page_lem a.ranges v.aligned v.disjoint)

-- `n` allocations in a row, as far as they succeed
unfoldable pub allocate_many : ℕ → Allocator → List ℕ
allocate_many zero a = []
allocate_many (suc n) a = elim (allocate_page a) [
  | none ↦ []
  | some (page, a') ↦ page ∷ allocate_many n a'
]

-- two pages that do not overlap
abbrev pub PagesApart : ℕ → ℕ → Type 0
PagesApart p q = (p + 4096 ≤ q) ⊎ (q + 4096 ≤ p)

abbrev pub AllApart : List ℕ → Type 0
AllApart [] = Unit
AllApart (p ∷ ps) = All (PagesApart p) ps × AllApart ps

-- what `n` allocations hand out of `a`
pub record Handed (n : ℕ) (a : Allocator) (ps : List ℕ) : Type 0 where
  pub were_free : All (λ p. Free p a.ranges) ps
  pub pages : All (λ p. p % 4096 ≡ 0) ps
  pub all_apart : AllApart ps
  pub as_many : length ps ≡ min n a.free_pages

-- The pages handed out later are free in what the first allocation leaves, so they are free before it
-- and apart from its page.
later-Free :
    (rs : List Range) (p : ℕ) (rs' : List Range) (ps : List ℕ)
    → Taken rs p rs'
    → All (λ q. Free q rs') ps
    → All (λ q. Free q rs) ps
later-Free rs p rs' [] t f = tt
later-Free rs p rs' (q ∷ ps) t f = (t.only_less q f.0, later-Free rs p rs' ps t f.1)

later_apart :
    (rs : List Range) (p : ℕ) (rs' : List Range) (ps : List ℕ)
    → Taken rs p rs'
    → All (λ q. Free q rs') ps
    → All (λ q. q % 4096 ≡ 0) ps
    → All (PagesApart p) ps
later_apart rs p rs' [] t f pg = tt
later_apart rs p rs' (q ∷ ps) t f pg =
    (omega (arith, t.gone q f.0, t.page, pg.0), later_apart rs p rs' ps t f.1 pg.1)

hand_one :
    (n : ℕ) (a : Allocator) (o : Option (ℕ × Allocator))
    → Allocated a o
    → ((a' : Allocator) → IsValid a' → Handed n a' (allocate_many n a'))
    → Handed (suc n) a (elim o [ none ↦ [] | some (page, a') ↦ page ∷ allocate_many n a' ])
hand_one n a none e ih = record {
  were_free = tt;
  pages = tt;
  all_apart = tt;
  as_many = rw e (omega arith);
}
hand_one n a (some (p, a')) (t, v, less, more, same) ih =
    let h = ih a' v in
    let ps = allocate_many n a' in
    record {
      were_free = (t.was_free, later-Free a.ranges p a'.ranges ps t h.were_free);
      pages = (t.page, h.pages);
      all_apart = (later_apart a.ranges p a'.ranges ps t h.were_free h.pages, h.all_apart);
      as_many = omega (arith, h.as_many, less);
    }

-- Any number of allocations from a well-formed allocator hand out free whole pages that do not
-- overlap one another, as many as were asked for or as are free.
pub allocate_many_lem : (n : ℕ) (a : Allocator) → IsValid a → Handed n a (allocate_many n a)
unfolding allocate_many
allocate_many_lem zero a v = record {
  were_free = tt;
  pages = tt;
  all_apart = tt;
  as_many = omega arith;
}
allocate_many_lem (suc n) a v =
    hand_one n a (allocate_page a) (allocate_page_lem a v) (allocate_many_lem n)
