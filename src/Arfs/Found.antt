-- ===== src/Arfs/Found.antt =====
-- What `find_entry` of kernel/arfs.c finds once an entry has been appended or replaced.
use arwill.Prelude.{
  ℕ, ◌≡◌, ◌≢◌, refl, ap, sym, ◌∙◌, inl, inr, true, false, if◌then◌else◌, Bool-cases, none, some,
  List, [], ◌∷◌, ◌++◌, subst,
}
use mathlib.Core.Option.{some-injective}
use arwill.Text.{text_equals, text_equals_sound, text_equals_refl}
use arwill.Arfs.Types.{Entry, find_entry}
use arwill.Arfs.Ops.{replace_entry}
use arwill.Arfs.Entries.{AreApart, AreApart-swap, Pairwise, find_entry-All}

text_equals-ne : (a b : List ℕ) → a ≢ b → text_equals a b ≡ false
text_equals-ne a b ne = elim (Bool-cases (text_equals a b)) [
  | inl same ↦ absurd (ne (text_equals_sound a b same))
  | inr other ↦ other
]

text_equals-eq : (a b : List ℕ) → a ≡ b → text_equals a b ≡ true
text_equals-eq a b e = subst (λ x. text_equals a x ≡ true) e (text_equals_refl a)

pub find_entry-append_other :
    (es : List Entry) (new : Entry) (q : List ℕ)
    → new.path ≢ q
    → find_entry (es ++ new ∷ []) q ≡ find_entry es q
unfolding find_entry
find_entry-append_other [] new q ne = rw (text_equals-ne new.path q ne) refl
find_entry-append_other (e ∷ es) new q ne =
    ap (λ o. if text_equals e.path q then some e else o) (find_entry-append_other es new q ne)

pub find_entry-append_self :
    (es : List Entry) (new : Entry) (q : List ℕ)
    → find_entry es q ≡ none
    → new.path ≡ q
    → find_entry (es ++ new ∷ []) q ≡ some new
unfolding find_entry
find_entry-append_self [] new q fresh same = rw (text_equals-eq new.path q same) refl
find_entry-append_self (e ∷ es) new q fresh same = elim (Bool-cases (text_equals e.path q)) [
  | inl this ↦ cc (rw this at fresh)
  | inr other ↦ rw other (find_entry-append_self es new q (rw other at fresh) same)
]

pub find_entry-replace_other :
    (es : List Entry) (path : List ℕ) (new : Entry) (q : List ℕ)
    → new.path ≡ path
    → path ≢ q
    → find_entry (replace_entry es path new) q ≡ find_entry es q
unfolding find_entry replace_entry
find_entry-replace_other [] path new q same ne = refl
find_entry-replace_other (e ∷ es) path new q same ne = elim (Bool-cases (text_equals e.path path)) [
  | inl this ↦ rw this (
      rw
        (
          text_equals-ne new.path q (λ x. ne (sym same ∙ x)),
          text_equals-ne e.path q (λ x. ne (sym (text_equals_sound e.path path this) ∙ x)),
        )
        refl)
  | inr other ↦ rw other (
      ap (λ o. if text_equals e.path q then some e else o)
        (find_entry-replace_other es path new q same ne))
]

pub find_entry-replace_self :
    (es : List Entry) (path : List ℕ) (e new : Entry)
    → find_entry es path ≡ some e
    → new.path ≡ path
    → find_entry (replace_entry es path new) path ≡ some new
unfolding find_entry replace_entry
find_entry-replace_self [] path e new found same = cc
find_entry-replace_self (x ∷ es) path e new found same =
    elim (Bool-cases (text_equals x.path path)) [
      | inl this ↦ rw this (rw (text_equals-eq new.path path same) refl)
      | inr other ↦
          rw other (rw other (find_entry-replace_self es path e new (rw other at found) same))
    ]

-- Two entries that are found under different paths are apart.
pub find_entry-AreApart :
    (es : List Entry) (p q : List ℕ) (e f : Entry)
    → Pairwise es
    → find_entry es p ≡ some e
    → find_entry es q ≡ some f
    → p ≢ q
    → AreApart e f
unfolding find_entry
find_entry-AreApart [] p q e f apart fp fq ne = cc
find_entry-AreApart (x ∷ es) p q e f (first, apart) fp fq ne =
    elim (Bool-cases (text_equals x.path p)) [
      | inl this ↦ elim (Bool-cases (text_equals x.path q)) [
        | inl both ↦
            absurd (ne (sym (text_equals_sound x.path p this) ∙ text_equals_sound x.path q both))
        | inr later ↦
            subst (λ y. AreApart y f) (some-injective x e (rw this at fp))
              (find_entry-All (AreApart x) es q f (rw later at fq) first)
      ]
      | inr other ↦ elim (Bool-cases (text_equals x.path q)) [
        | inl here ↦
            subst (λ y. AreApart e y) (some-injective x f (rw here at fq))
              (AreApart-swap x e (find_entry-All (AreApart x) es p e (rw other at fp) first))
        | inr later ↦ find_entry-AreApart es p q e f apart (rw other at fp) (rw later at fq) ne
      ]
    ]
