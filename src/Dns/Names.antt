-- ===== src/Dns/Names.antt =====
-- How `skip_name` of libs/libnet/dns.c goes through names, those of `arwill_dns_build_a_query` among them.
use arwill.Prelude.{
  ℕ, zero, suc, ◌+◌, ◌-◌, ◌*◌, ◌≤◌, ◌<◌, ◌≡◌, refl, subst, ap, sym, ◌∙◌, inl, inr, false, ◌||◌,
  ◌==◌, ltb, leb, Bool-cases, some, List, [], ◌∷◌, ◌++◌, length, get_or, arith,
}
use mathlib.Core.List.{append_assoc}
use arwill.Prelude.Lists.{length-append}
use arwill.Dns.{Result, ok, invalid, too_large, not_found, server_failure, u16_bytes}
use arwill.Dns.Query.{label_fits, label_error, add_labels, header, build_a_query, is_host_byte}
use arwill.Dns.Response.{skip_labels, skip_name}

-- With fuel for the labels that are left to count, more fuel changes nothing.
skip_labels_more :
    (fuel extra : ℕ) (message : List ℕ) (position labels : ℕ)
    → 128 ≤ fuel + labels
    → 0 < fuel
    → skip_labels (fuel + extra) message position labels ≡ skip_labels fuel message position labels
unfolding skip_labels
skip_labels_more zero extra message position labels enough pos = absurd (omega arith)
skip_labels_more (suc fuel) extra message position labels enough pos =
    let part = get_or message position 0 in
    let more : suc fuel + extra ≡ suc (fuel + extra) = omega arith in
    elim (Bool-cases (
      leb 64 part
      || (ltb 63 part || (ltb (length message) (position + 1 + part) || ltb 127 (labels + 1))))) [
        | inl stops ↦ rw (more, stops) refl
        | inr goes ↦
            let counted : labels + 1 ≤ 127 = ground (arith, goes) in
            rw
              (
                more,
                skip_labels_more fuel extra message (position + 1 + part) (labels + 1) (omega arith)
                    (omega arith),
              )
              refl
      ]

-- No name makes the loop that skips it run for more than 128 rounds: with more fuel it gives the same.
pub skip_name_ends :
    (extra : ℕ) (message : List ℕ) (offset : ℕ)
    → skip_labels (128 + extra) message offset 0 ≡ skip_name message offset
unfolding skip_name
skip_name_ends extra message offset =
    skip_labels_more 128 extra message offset 0 (omega arith) (omega arith)

-- A name that is skipped is not empty and ends inside the message.
skip_labels_inside :
    (fuel : ℕ) (message : List ℕ) (position labels behind : ℕ)
    → skip_labels fuel message position labels ≡ some behind
    → (position < behind) × (behind ≤ length message)
unfolding skip_labels
skip_labels_inside zero message position labels behind h = ground arith
skip_labels_inside (suc fuel) message position labels behind h = ground (
  arith,
  skip_labels_inside fuel message (position + 1 + get_or message position 0) (labels + 1) behind,
)

-- A name that is skipped takes a byte at least and ends inside the message.
pub skip_name_inside :
    (message : List ℕ) (offset behind : ℕ)
    → skip_name message offset ≡ some behind
    → (offset < behind) × (behind ≤ length message)
unfolding skip_name
skip_name_inside message offset behind h = skip_labels_inside 128 message offset 0 behind h

-- the byte behind a list
get_or-append : (xs ys : List ℕ) → get_or (xs ++ ys) (length xs) 0 ≡ get_or ys 0 0
get_or-append [] ys = refl
get_or-append (x ∷ xs) ys = get_or-append xs ys

-- One round over a label.
skip_one :
    (fuel labels : ℕ) (output label rest : List ℕ)
    → 0 < length label
    → length label ≤ 63
    → labels < 127
    → skip_labels (suc fuel) ((output ++ length label ∷ label) ++ rest) (length output) labels
      ≡ skip_labels fuel
          ((output ++ length label ∷ label) ++ rest)
          (length (output ++ length label ∷ label))
          (labels + 1)
unfolding skip_labels
skip_one fuel labels output label rest some_byte short few =
    let message = (output ++ length label ∷ label) ++ rest in
    let shorter : length (output ++ length label ∷ label) ≡ length output + 1 + length label =
      omega (arith, length-append output (length label ∷ label)) in
    let long : length message ≡ length output + 1 + length label + length rest =
      omega (arith, shorter, length-append (output ++ length label ∷ label) rest) in
    let part : get_or message (length output) 0 ≡ length label =
      ap (λ l. get_or l (length output) 0) (append_assoc output (length label ∷ label) rest)
      ∙ get_or-append output (length label ∷ (label ++ rest)) in
    let inside : leb (length message) (length output) ≡ false = ground (arith, long) in
    let full : (length label == 0) ≡ false = ground arith in
    let plain : leb 192 (length label) ≡ false = ground arith in
    let fine : (leb 64 (length label)
          || (ltb 63 (length label)
              || (ltb (length message) (length output + 1 + length label) || ltb 127 (labels + 1))))
        ≡ false =
      ground (arith, long) in
    rw (part, inside, full, plain, fine, shorter) refl

-- where the message of a query ends its name
abbrev NameOf : List ℕ → Result (List ℕ) → Type 0
NameOf output (ok message) =
    (rest : List ℕ) × (message ≡ output ++ rest)
    × (5 ≤ length rest)
    × (length message ≤ 272)
    × ((fuel labels : ℕ)
        → 2 * labels + 12 ≤ length output
        → 128 ≤ fuel + labels
        → skip_labels fuel message (length output) labels ≡ some (length message - 4))
NameOf output invalid = Unit
NameOf output too_large = Unit
NameOf output not_found = Unit
NameOf output server_failure = Unit

-- the name goes on behind a label
next_label :
    (output label : List ℕ) (r : Result (List ℕ))
    → 0 < length label
    → length label ≤ 63
    → NameOf (output ++ length label ∷ label) r
    → NameOf output r
next_label output label (ok message) some_byte short (rest, e, tail, fits, h) = (
  length label ∷ (label ++ rest),
  e ∙ append_assoc output (length label ∷ label) rest,
  omega (arith, length-append label rest, tail),
  fits,
  go,
)
  where
    grown : List ℕ
    grown = output ++ length label ∷ label

    longer : length grown ≡ length output + 1 + length label
    longer = omega (arith, length-append output (length label ∷ label))

    whole : length message ≡ length grown + length rest
    whole = ap length e ∙ length-append grown rest

    go :
        (fuel labels : ℕ)
        → 2 * labels + 12 ≤ length output
        → 128 ≤ fuel + labels
        → skip_labels fuel message (length output) labels ≡ some (length message - 4)
    go zero labels before enough = absurd (omega (arith, longer, whole))
    go (suc fuel) labels before enough =
        let later = h fuel (labels + 1) (omega (arith, longer)) (omega arith) in
        let few : labels < 127 = omega (arith, longer, whole) in
        subst (λ m. skip_labels (suc fuel) m (length output) labels ≡ some (length message - 4))
          (sym e)
          (skip_one fuel labels output label rest some_byte short few
            ∙ subst
                (λ m. skip_labels fuel m (length grown) (labels + 1) ≡ some (length message - 4)) e
                later)
next_label output label invalid some_byte short h = tt
next_label output label too_large some_byte short h = tt
next_label output label not_found some_byte short h = tt
next_label output label server_failure some_byte short h = tt

error-NameOf : (output : List ℕ) (size : ℕ) → NameOf output (label_error size)
error-NameOf output size = elim (Bool-cases (ltb 63 size)) [
  | inl long ↦ rw long tt
  | inr other ↦ rw other tt
]

-- the end of a name: a byte of zero and the four bytes of the question
end_of_name :
    (output : List ℕ)
    → length output + 5 ≤ 272
    → NameOf output (ok (output ++ 0 ∷ (u16_bytes 1 ++ u16_bytes 1)))
unfolding skip_labels
end_of_name output fits = (ending, refl, omega arith, omega (arith, long), go)
  where
    ending : List ℕ
    ending = 0 ∷ (u16_bytes 1 ++ u16_bytes 1)

    long : length (output ++ ending) ≡ length output + 5
    long = length-append output ending

    go :
        (fuel labels : ℕ)
        → 2 * labels + 12 ≤ length output
        → 128 ≤ fuel + labels
        → skip_labels fuel (output ++ ending) (length output) labels
          ≡ some (length (output ++ ending) - 4)
    go zero labels before enough = absurd (omega arith)
    go (suc fuel) labels before enough =
        let inside : leb (length (output ++ ending)) (length output) ≡ false =
          ground (arith, long) in
        rw (inside, get_or-append output ending) (ap (λ i. some i) (omega (arith, long)))

add_labels-NameOf :
    (capacity : ℕ) (host label output : List ℕ)
    → capacity ≤ 272
    → NameOf output (add_labels capacity host label output)
unfolding add_labels label_fits
add_labels-NameOf capacity [] label output small =
    elim (Bool-cases (label_fits capacity (length output) (length label))) [
      | inl fits ↦ rw fits (
          next_label output label
            (ok ((output ++ length label ∷ label) ++ 0 ∷ (u16_bytes 1 ++ u16_bytes 1)))
            (ground (arith, fits)) (ground (arith, fits))
            (end_of_name (output ++ length label ∷ label)
              (ground (arith, fits, length-append output (length label ∷ label)))))
      | inr large ↦ rw large (error-NameOf output (length label))
    ]
add_labels-NameOf capacity (c ∷ host) label output small = elim (Bool-cases (c == b'.')) [
  | inl dot ↦ elim (Bool-cases (label_fits capacity (length output) (length label))) [
    | inl fits ↦
        rw (dot, fits)
          (next_label output label (add_labels capacity host [] (output ++ length label ∷ label))
            (ground (arith, fits)) (ground (arith, fits))
            (add_labels-NameOf capacity host [] (output ++ length label ∷ label) small))
    | inr large ↦ rw (dot, large) (error-NameOf output (length label))
  ]
  | inr byte ↦ elim (Bool-cases (is_host_byte c)) [
    | inl fine ↦ rw (byte, fine) (add_labels-NameOf capacity host (label ++ c ∷ []) output small)
    | inr refused ↦ rw (byte, refused) tt
  ]
]

-- What the query for a host is: its header, and behind it a name that is skipped and the question's four
-- bytes.
pub build_a_query_name :
    (host : List ℕ) (identifier capacity : ℕ) (message : List ℕ)
    → capacity ≤ 272
    → build_a_query host identifier capacity ≡ ok message
    → (rest : List ℕ) × (message ≡ header identifier ++ rest)
      × (5 ≤ length rest)
      × (skip_name message 12 ≡ some (length message - 4))
unfolding build_a_query skip_name
build_a_query_name host identifier capacity message small h =
    let (rest, e, tail, _, skips) = subst (NameOf (header identifier)) h built in
    (rest, e, tail, skips 128 0 (omega arith) (omega arith))
  where
    built : NameOf (header identifier) (build_a_query host identifier capacity)
    built = elim (Bool-cases (length host == 0 || ltb capacity 17)) [
      | inl refused ↦ rw refused tt
      | inr fine ↦ rw fine (add_labels-NameOf capacity host [] (header identifier) small)
    ]
