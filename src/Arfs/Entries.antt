-- ===== src/Arfs/Entries.antt =====
-- Lists of entries that kernel/arfs.c changes: what is found, replaced, dropped and appended.
use arwill.Prelude.{
  ℕ, suc, subst, ◌+◌, ◌≤◌, ◌≡◌, ◌≢◌, refl, ap, sym, ◌∙◌, ◌⊎◌, inl, inr, Bool-cases, none, some,
  List, [], ◌∷◌, ◌++◌, length, All, arith,
}
use mathlib.Core.Option.{some-injective}
use arwill.Text.{text_equals, text_equals_sound, text_equals_refl}
use arwill.Arfs.Types.{Entry, find_entry, entry_sector_count}
use arwill.Arfs.Ops.{replace_entry, drop_entry}

-- Two entries have different paths and no sector in common.
abbrev pub AreApart : Entry → Entry → Type 0
AreApart e f =
    (e.path ≢ f.path)
    × ((entry_sector_count e ≡ 0)
        ⊎ ((entry_sector_count f ≡ 0)
            ⊎ ((e.data_lba + entry_sector_count e ≤ f.data_lba)
                ⊎ (f.data_lba + entry_sector_count f ≤ e.data_lba))))

abbrev pub Pairwise : List Entry → Type 0
Pairwise [] = Unit
Pairwise (e ∷ es) = All (AreApart e) es × Pairwise es

pub AreApart-swap : (e f : Entry) → AreApart e f → AreApart f e
AreApart-swap e f (ne, inl a) = (λ p. ne (sym p), inr (inl a))
AreApart-swap e f (ne, inr (inl a)) = (λ p. ne (sym p), inl a)
AreApart-swap e f (ne, inr (inr (inl a))) = (λ p. ne (sym p), inr (inr (inr a)))
AreApart-swap e f (ne, inr (inr (inr a))) = (λ p. ne (sym p), inr (inr (inl a)))

module _ (P : Entry → Type 0) where
  pub find_entry-All :
      (es : List Entry) (path : List ℕ) (e : Entry) → find_entry es path ≡ some e → All P es → P e
  unfolding find_entry
  find_entry-All [] path e h all = cc
  find_entry-All (x ∷ es) path e h all = elim (Bool-cases (text_equals x.path path)) [
    | inl this ↦ subst P (some-injective x e (rw this at h)) all.0
    | inr other ↦ find_entry-All es path e (rw other at h) all.1
  ]

  pub replace_entry-All :
      (es : List Entry) (path : List ℕ) (new : Entry)
      → P new
      → All P es
      → All P (replace_entry es path new)
  unfolding replace_entry
  replace_entry-All [] path new p all = tt
  replace_entry-All (x ∷ es) path new p all = elim (Bool-cases (text_equals x.path path)) [
    | inl this ↦ rw this (p, all.1)
    | inr other ↦ rw other (all.0, replace_entry-All es path new p all.1)
  ]

  pub drop_entry-All : (es : List Entry) (path : List ℕ) → All P es → All P (drop_entry es path)
  unfolding drop_entry
  drop_entry-All [] path all = tt
  drop_entry-All (x ∷ es) path all = elim (Bool-cases (text_equals x.path path)) [
    | inl this ↦ rw this all.1
    | inr other ↦ rw other (all.0, drop_entry-All es path all.1)
  ]

  pub append-All : (es : List Entry) (new : Entry) → All P es → P new → All P (es ++ new ∷ [])
  append-All [] new all p = (p, tt)
  append-All (x ∷ es) new all p = (all.0, append-All es new all.1 p)

pub find_entry_path :
    (es : List Entry) (path : List ℕ) (e : Entry) → find_entry es path ≡ some e → e.path ≡ path
unfolding find_entry
find_entry_path [] path e h = cc
find_entry_path (x ∷ es) path e h = elim (Bool-cases (text_equals x.path path)) [
  | inl this ↦
      ap (λ (y : Entry). y.path) (sym (some-injective x e (rw this at h)))
      ∙ text_equals_sound x.path path this
  | inr other ↦ find_entry_path es path e (rw other at h)
]

pub find_entry-none :
    (es : List Entry) (path : List ℕ) → find_entry es path ≡ none → All (λ f. f.path ≢ path) es
unfolding find_entry
find_entry-none [] path h = tt
find_entry-none (x ∷ es) path h = elim (Bool-cases (text_equals x.path path)) [
  | inl this ↦ cc (rw this at h)
  | inr other ↦ (
    λ e. cc (ap (λ p. text_equals p path) e, text_equals_refl path, other),
    find_entry-none es path (rw other at h),
  )
]

pub length-replace_entry :
    (es : List Entry) (path : List ℕ) (new : Entry) → length (replace_entry es path new) ≡ length es
unfolding replace_entry
length-replace_entry [] path new = refl
length-replace_entry (x ∷ es) path new = elim (Bool-cases (text_equals x.path path)) [
  | inl this ↦ rw this refl
  | inr other ↦ rw other (ap suc (length-replace_entry es path new))
]

pub length-drop_entry : (es : List Entry) (path : List ℕ) → length (drop_entry es path) ≤ length es
unfolding drop_entry
length-drop_entry [] path = omega arith
length-drop_entry (x ∷ es) path = ground (arith, length-drop_entry es path)

pub map_two :
    (P Q : Entry → Type 0) (es : List Entry) → All (λ f. P f → Q f) es → All P es → All Q es
map_two P Q [] f p = tt
map_two P Q (x ∷ es) f p = (f.0 p.0, map_two P Q es f.1 p.1)

-- The entry that takes the place of another has to be apart from those that the other was apart from.
pub replace_entry-Pairwise :
    (es : List Entry) (path : List ℕ) (e new : Entry)
    → find_entry es path ≡ some e
    → All (λ f. AreApart e f → AreApart new f) es
    → Pairwise es
    → Pairwise (replace_entry es path new)
unfolding replace_entry find_entry
replace_entry-Pairwise [] path e new found keeps apart = tt
replace_entry-Pairwise (x ∷ es) path e new found keeps (first, apart) =
    elim (Bool-cases (text_equals x.path path)) [
      | inl this ↦ rw this (
          let same = some-injective x e (rw this at found) in
          (
            map_two (AreApart e) (AreApart new) es keeps.1
                (subst (λ y. All (AreApart y) es) same first),
            apart,
          ))
      | inr other ↦ rw other (
          let there = rw other at found in
          let old = find_entry-All (AreApart x) es path e there first in
          let new_first = AreApart-swap new x (keeps.0 (AreApart-swap x e old)) in
          (
            replace_entry-All (AreApart x) es path new new_first first,
            replace_entry-Pairwise es path e new there keeps.1 apart,
          ))
    ]

pub drop_entry-Pairwise :
    (es : List Entry) (path : List ℕ) → Pairwise es → Pairwise (drop_entry es path)
unfolding drop_entry
drop_entry-Pairwise [] path apart = tt
drop_entry-Pairwise (x ∷ es) path (first, apart) = elim (Bool-cases (text_equals x.path path)) [
  | inl this ↦ rw this apart
  | inr other ↦
      rw other (drop_entry-All (AreApart x) es path first, drop_entry-Pairwise es path apart)
]

pub append-Pairwise :
    (es : List Entry) (new : Entry)
    → All (AreApart new) es
    → Pairwise es
    → Pairwise (es ++ new ∷ [])
append-Pairwise [] new all apart = (tt, tt)
append-Pairwise (x ∷ es) new all (first, apart) = (
  append-All (AreApart x) es new first (AreApart-swap new x all.0),
  append-Pairwise es new all.1 apart,
)
