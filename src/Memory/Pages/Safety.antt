-- ===== src/Memory/Pages/Safety.antt =====
-- The page allocator hands out each page of its ranges once, and only pages of usable memory.
use arwill.Prelude.{
  ℕ, suc, ◌+◌, ◌-◌, ◌/◌, ◌%◌, ◌^◌, ◌≤◌, ◌<◌, ◌≡◌, refl, ap, ◌⊎◌, inl, inr, le→leb, lt→leb_false,
  u64, Option, none, some, List, [], ◌∷◌, All, Any, arith,
}
use native.Mathlib.Decide.{dec_le}
use arwill.Memory.Pages.{page_size, Range, take_page}

pub record IsAligned (r : Range) : Type 0 where
  pub next_page : r.next % 4096 ≡ 0
  pub end_page : r.end % 4096 ≡ 0
  pub end_word : r.end < 2 ^ 64

abbrev pub Within : ℕ → Range → Type 0
Within q r = (r.next ≤ q) × (q < r.end)

-- the address `q` lies in what a range has left
abbrev pub Free : ℕ → List Range → Type 0
Free q rs = Any (Within q) rs

abbrev pub Apart : Range → Range → Type 0
Apart r s = (r.end ≤ s.next) ⊎ (s.end ≤ r.next)

abbrev pub Disjoint : List Range → Type 0
Disjoint [] = Unit
Disjoint (r ∷ rs) = All (Apart r) rs × Disjoint rs

-- the whole pages that the ranges have left
abbrev pub pages_left : List Range → ℕ
pages_left [] = 0
pages_left (r ∷ rs) = (r.end - r.next) / 4096 + pages_left rs

-- what it means to take the page at `p` from `rs` and leave `rs'`
pub record Taken (rs : List Range) (p : ℕ) (rs' : List Range) : Type 0 where
  pub page : p % 4096 ≡ 0
  pub was_free : Free p rs
  pub only_less : (q : ℕ) → Free q rs' → Free q rs
  pub gone : (q : ℕ) → Free q rs' → (q < p) ⊎ (p + 4096 ≤ q)
  pub one_less : pages_left rs ≡ suc (pages_left rs')
  pub aligned : All IsAligned rs'
  pub apart : (r : Range) → All (Apart r) rs → All (Apart r) rs'
  pub disjoint : Disjoint rs'

-- what `take_page` promises of `rs`
abbrev pub Outcome : List Range → Option (ℕ × List Range) → Type 0
Outcome rs none = (pages_left rs ≡ 0) × ((q : ℕ) → ¬ (Free q rs))
Outcome rs (some (p, rs')) = Taken rs p rs'

-- A page outside a range that is apart from its own.
outside :
    (r : Range) (rs : List Range) (p q : ℕ)
    → All (Apart r) rs
    → All IsAligned rs
    → p % 4096 ≡ 0
    → Free p rs
    → Within q r
    → (q < p) ⊎ (p + 4096 ≤ q)
outside r [] p q ap ok pg f w = absurd f
outside r (s ∷ rs) p q ap ok pg (inl f) w = omega arith
outside r (s ∷ rs) p q ap ok pg (inr f) w = outside r rs p q ap.1 ok.1 pg f w

advance : Range → Range
advance r = record r { next = u64 (r.next + page_size) }

Apart-advance :
    (r : Range) (rs : List Range)
    → IsAligned r
    → r.next < r.end
    → All (Apart r) rs
    → All (Apart (advance r)) rs
unfolding advance
Apart-advance r [] ok lt ap = tt
Apart-advance r (s ∷ rs) ok lt ap = (omega arith, Apart-advance r rs ok lt ap.1)

others_outside :
    (r : Range) (rs : List Range) (q : ℕ)
    → IsAligned r
    → r.next < r.end
    → All (Apart r) rs
    → Free q rs
    → (q < r.next) ⊎ (r.next + 4096 ≤ q)
others_outside r [] q ok lt ap f = absurd f
others_outside r (s ∷ rs) q ok lt ap (inl w) = omega arith
others_outside r (s ∷ rs) q ok lt ap (inr f) = others_outside r rs q ok lt ap.1 f

take_here :
    (r : Range) (rs : List Range)
    → r.next < r.end
    → All IsAligned (r ∷ rs)
    → Disjoint (r ∷ rs)
    → Taken (r ∷ rs) r.next (advance r ∷ rs)
unfolding advance
take_here r rs lt ok dis = record {
  page = ok.0.next_page;
  was_free = inl (omega arith);
  only_less = λ q f. elim f [ inl w ↦ inl (omega arith) | inr w ↦ inr w ];
  gone = λ q f. elim f [ inl w ↦ omega arith | inr w ↦ others_outside r rs q ok.0 lt dis.0 w ];
  one_less = omega arith;
  aligned = (omega arith, ok.1);
  apart = λ s a. (omega arith, a.1);
  disjoint = (Apart-advance r rs ok.0 lt dis.0, dis.1);
}

take_there :
    (r : Range) (rs : List Range) (p : ℕ) (rs' : List Range)
    → r.end ≤ r.next
    → All IsAligned (r ∷ rs)
    → Disjoint (r ∷ rs)
    → Taken rs p rs'
    → Taken (r ∷ rs) p (r ∷ rs')
take_there r rs p rs' done ok dis t = record {
  page = t.page;
  was_free = inr t.was_free;
  only_less = λ q f. elim f [ inl w ↦ inl w | inr w ↦ inr (t.only_less q w) ];
  gone = λ q f. elim f [
    | inl w ↦ outside r rs p q dis.0 ok.1 t.page t.was_free w
    | inr w ↦ t.gone q w
  ];
  one_less = omega (arith, t.one_less);
  aligned = (ok.0, t.aligned);
  apart = λ s a. (a.0, t.apart s a.1);
  disjoint = (t.apart r dis.0, t.disjoint);
}

skip :
    (r : Range) (rs : List Range) (o : Option (ℕ × List Range))
    → r.end ≤ r.next
    → All IsAligned (r ∷ rs)
    → Disjoint (r ∷ rs)
    → Outcome rs o
    → Outcome (r ∷ rs) (elim o [ none ↦ none | some (page, rs') ↦ some (page, r ∷ rs') ])
skip r rs none done ok dis out =
    (omega (arith, out.0), λ q f. elim f [ inl w ↦ omega arith | inr w ↦ out.1 q w ])
skip r rs (some (p, rs')) done ok dis t = take_there r rs p rs' done ok dis t

-- Of aligned and disjoint ranges, the page that is taken was free, is a page, and is wholly gone from
-- what is left, which grows by nothing and has one page less; and none is taken only where nothing is
-- left.
pub take_page_lem : (rs : List Range) → All IsAligned rs → Disjoint rs → Outcome rs (take_page rs)
unfolding take_page advance
take_page_lem [] ok dis = (refl, λ q f. f)
take_page_lem (r ∷ rs) ok dis = elim (dec_le r.end r.next) [
  | yes done ↦
      rw (le→leb r.end r.next done)
        (skip r rs (take_page rs) done ok dis (take_page_lem rs ok.1 dis.1))
  | no more ↦ rw (lt→leb_false r.end r.next (omega arith)) (take_here r rs (omega arith) ok dis)
]
