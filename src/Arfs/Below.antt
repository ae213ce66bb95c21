-- ===== src/Arfs/Below.antt =====
-- Which entries `entry_is_child_of` of kernel/arfs.c takes for the entries of a directory.
use arwill.Prelude.{
  ℕ, zero, suc, ◌+◌, ◌<◌, ◌≡◌, ◌≢◌, ◌⊎◌, refl, ap, ◌∙◌, inl, inr, true, false, Bool-cases, List, [],
  ◌∷◌, ◌++◌, length, get_or, drop, codes, All, arith,
}
use arwill.Text.{text_equals, text_equals_sound, text_equals_refl, starts_with}
use arwill.Arfs.Paths.{has_slash, is_one_segment, is_child_of}

-- a part of a path: not empty, and without `/`
abbrev pub IsSegment : List ℕ → Type 0
IsSegment t = (0 < length t) × All (λ c. c ≢ b'/') t

-- A path lies directly below a directory: it is the directory's, with a `/` where that is not the root, and
-- one part more.
abbrev pub IsBelow : List ℕ → List ℕ → Type 0
IsBelow path p =
    (part : List ℕ) × IsSegment part
    × (((path ≡ codes "/") × (p ≡ b'/' ∷ part)) ⊎ ((path ≢ codes "/") × (p ≡ path ++ b'/' ∷ part)))

slash_free : (t : List ℕ) → has_slash t ≡ false → All (λ c. c ≢ b'/') t
unfolding has_slash
slash_free [] h = tt
slash_free (c ∷ t) h = ((λ e. ground (arith, h, e)), slash_free t (ground (arith, h)))

no_slash : (t : List ℕ) → All (λ c. c ≢ b'/') t → has_slash t ≡ false
unfolding has_slash
no_slash [] h = refl
no_slash (c ∷ t) (here, rest) = ground (arith, no_slash t rest)

is_one_segment-IsSegment : (t : List ℕ) → is_one_segment t ≡ true → IsSegment t
unfolding is_one_segment
is_one_segment-IsSegment [] h = absurd (ground arith)
is_one_segment-IsSegment (c ∷ t) h = (omega arith, slash_free (c ∷ t) (ground (arith, h)))

IsSegment-is_one_segment : (t : List ℕ) → IsSegment t → is_one_segment t ≡ true
unfolding is_one_segment
IsSegment-is_one_segment [] (some_byte, free) = absurd (omega arith)
IsSegment-is_one_segment (c ∷ t) (some_byte, free) = ground (arith, no_slash (c ∷ t) free)

starts_with_rest : (t p : List ℕ) → starts_with t p ≡ true → t ≡ p ++ drop (length p) t
unfolding starts_with
starts_with_rest t [] h = refl
starts_with_rest [] (b ∷ p) h = absurd (ground arith)
starts_with_rest (a ∷ t) (b ∷ p) h =
    let same : a ≡ b = ground (arith, h) in
    ap (λ x. x ∷ t) same ∙ ap (λ l. b ∷ l) (starts_with_rest t p (ground (arith, h)))

starts_with-append : (p rest : List ℕ) → starts_with (p ++ rest) p ≡ true
unfolding starts_with
starts_with-append [] rest = refl
starts_with-append (a ∷ p) rest = ground (arith, starts_with-append p rest)

drop_at : (n : ℕ) (t : List ℕ) → get_or t n 0 ≡ b'/' → drop n t ≡ b'/' ∷ drop (n + 1) t
drop_at n [] h = absurd (omega (arith, h))
drop_at zero (c ∷ t) h = ap (λ x. x ∷ t) h
drop_at (suc n) (c ∷ t) h =
    let next : suc n + 1 ≡ suc (n + 1) = omega arith in rw next (drop_at n t h)

get_or-behind : (p rest : List ℕ) → get_or (p ++ b'/' ∷ rest) (length p) 0 ≡ b'/'
get_or-behind [] rest = refl
get_or-behind (a ∷ p) rest = get_or-behind p rest

drop-behind : (p rest : List ℕ) → drop (length p + 1) (p ++ b'/' ∷ rest) ≡ rest
drop-behind [] rest = refl
drop-behind (a ∷ p) rest =
    let next : suc (length p) + 1 ≡ suc (length p + 1) = omega arith in rw next (drop-behind p rest)

not_root : (path : List ℕ) → text_equals path (codes "/") ≡ false → path ≢ codes "/"
not_root path h e = cc (h, ap (λ l. text_equals l (codes "/")) e, text_equals_refl (codes "/"))

pub is_child_of-IsBelow :
    (p path : List ℕ) → get_or p 0 0 ≡ b'/' → is_child_of p path ≡ true → IsBelow path p
unfolding is_child_of
is_child_of-IsBelow p path absolute h = elim (Bool-cases (text_equals path (codes "/"))) [
  | inl root ↦
      let tail : is_one_segment (drop 1 p) ≡ true = ground (arith, h, root) in
      (
        drop 1 p,
        is_one_segment-IsSegment (drop 1 p) tail,
        inl (text_equals_sound path (codes "/") root, drop_at 0 p absolute),
      )
  | inr other ↦
      let start : starts_with p path ≡ true = ground (arith, h, other) in
      let slash : get_or p (length path) 0 ≡ b'/' = ground (arith, h, other) in
      let tail : is_one_segment (drop (length path + 1) p) ≡ true = ground (arith, h, other) in
      (
        drop (length path + 1) p,
        is_one_segment-IsSegment (drop (length path + 1) p) tail,
        inr (
          not_root path other,
          starts_with_rest p path start ∙ ap (λ l. path ++ l) (drop_at (length path) p slash),
        ),
      )
]

pub IsBelow-is_child_of : (p path : List ℕ) → IsBelow path p → is_child_of p path ≡ true
unfolding is_child_of
IsBelow-is_child_of p path (part, segment, inl (root, e)) =
    let same : text_equals path (codes "/") ≡ true =
      ap (λ l. text_equals l (codes "/")) root ∙ text_equals_refl (codes "/") in
    rw (same, e) (IsSegment-is_one_segment part segment)
IsBelow-is_child_of p path (part, segment, inr (other, e)) =
    elim (Bool-cases (text_equals path (codes "/"))) [
      | inl root ↦ absurd (other (text_equals_sound path (codes "/") root))
      | inr not_it ↦
          let start = starts_with-append path (b'/' ∷ part) in
          rw (not_it, e, start, get_or-behind path part, drop-behind path part)
            (IsSegment-is_one_segment part segment)
    ]
