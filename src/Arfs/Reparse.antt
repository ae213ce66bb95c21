-- ===== src/Arfs/Reparse.antt =====
-- That the text of the manifest that kernel/arfs.c writes is parsed to the entries.
use arwill.Prelude.{
  ℕ, zero, suc, ◌+◌, ◌-◌, ◌≤◌, ◌<◌, ◌≡◌, refl, ap, sym, ◌∙◌, inl, inr, Bool, false, if◌then◌else◌,
  ◌==◌, leb, Bool-cases, Option, none, some, List, [], ◌∷◌, ◌++◌, length, take, replicate, All,
  codes, arith,
}
use mathlib.Core.List.{append-nil, append_assoc}
use mathlib.Core.Option.{some-injective}
use arwill.Prelude.Lists.{length-append}
use arwill.Text.Decimal.{decimal64}
use arwill.Arfs.Types.{EntryKind, directory, file, Entry, max_entries, manifest_capacity}
use arwill.Arfs.Manifest.{
  kind_text, type_text, write_text, write_decimal, then_text, then_decimal, write_details,
  write_entry, write_entries, padded,
}
use arwill.Arfs.Parse.{parse_manifest}
use arwill.Arfs.Lines.{IsPrintable}
use arwill.Arfs.FileLine.{details_text, line_text}
use arwill.Arfs.Roundtrip.{lines_text, parse_lines_lem}

-- What is written stands behind what the buffer held.
write_text_lem :
    (buffer added out : List ℕ) → write_text buffer added ≡ some out → out ≡ buffer ++ added
unfolding write_text
write_text_lem buffer [] out h = sym (some-injective buffer out h) ∙ sym (append-nil buffer)
write_text_lem buffer (c ∷ added) out h =
    elim (Bool-cases (leb manifest_capacity (length buffer + 1))) [
      | inl full ↦ cc (rw full at h)
      | inr room ↦
          write_text_lem (buffer ++ c ∷ []) added out (rw room at h)
          ∙ append_assoc buffer (c ∷ []) added
    ]

then_text_lem :
    (o : Option (List ℕ)) (added out : List ℕ)
    → then_text o added ≡ some out
    → (b : List ℕ) × (o ≡ some b) × (out ≡ b ++ added)
then_text_lem none added out h = cc
then_text_lem (some b) added out h = (b, refl, write_text_lem b added out h)

then_decimal_lem :
    (o : Option (List ℕ)) (value : ℕ) (out : List ℕ)
    → then_decimal o value ≡ some out
    → (b : List ℕ) × (o ≡ some b) × (out ≡ b ++ decimal64 value)
unfolding write_decimal
then_decimal_lem none value out h = cc
then_decimal_lem (some b) value out h =
    elim (Bool-cases (leb manifest_capacity (length b + length (decimal64 value)))) [
      | inl full ↦ cc (rw full at h)
      | inr room ↦ (b, refl, sym (some-injective (b ++ decimal64 value) out (rw room at h)))
    ]

write_details_lem :
    (k : EntryKind) (e : Entry) (o : Option (List ℕ)) (out : List ℕ)
    → write_details k e o ≡ some out
    → (b : List ℕ) × (o ≡ some b) × (out ≡ b ++ details_text k e)
unfolding details_text
write_details_lem directory e o out h = (out, h, sym (append-nil out))
write_details_lem file e o out h =
    let (b3, h3, e3) = then_decimal_lem _ e.size_bytes out h in
    let (b2, h2, e2) = then_text_lem _ (codes " ") b3 h3 in
    let (b1, h1, e1) = then_decimal_lem _ e.data_lba b2 h2 in
    let (b0, h0, e0) = then_text_lem _ (type_text e.file_type) b1 h1 in
    (
      b0,
      h0,
      e3
          ∙ ap (λ l. l ++ decimal64 e.size_bytes)
              (e2 ∙ ap (λ l. l ++ codes " ") (e1 ∙ ap (λ l. l ++ decimal64 e.data_lba) e0))
          ∙ append_assoc ((b0 ++ type_text e.file_type) ++ decimal64 e.data_lba) (codes " ")
              (decimal64 e.size_bytes)
          ∙ append_assoc (b0 ++ type_text e.file_type) (decimal64 e.data_lba)
              (codes " " ++ decimal64 e.size_bytes)
          ∙ append_assoc b0 (type_text e.file_type)
              (decimal64 e.data_lba ++ (codes " " ++ decimal64 e.size_bytes)),
    )

write_entry_lem :
    (buffer : List ℕ) (e : Entry) (out : List ℕ)
    → write_entry buffer e ≡ some out
    → out ≡ buffer ++ (line_text e ++ b'\n' ∷ [])
unfolding write_entry line_text
write_entry_lem buffer e out h =
    let (b3, h3, e3) = then_text_lem _ (codes "\n") out h in
    let (b2, h2, e2) = write_details_lem e.kind e _ b3 h3 in
    let (b1, h1, e1) = then_text_lem _ e.path b2 h2 in
    let e0 = write_text_lem buffer (kind_text e.kind) b1 h1 in
    e3
    ∙ ap (λ l. l ++ codes "\n")
        (e2 ∙ ap (λ l. l ++ details_text e.kind e) (e1 ∙ ap (λ l. l ++ e.path) e0))
    ∙ ap (λ l. l ++ codes "\n")
        (append_assoc (buffer ++ kind_text e.kind) e.path (details_text e.kind e)
          ∙ append_assoc buffer (kind_text e.kind) (e.path ++ details_text e.kind e))
    ∙ append_assoc buffer (kind_text e.kind ++ (e.path ++ details_text e.kind e)) (codes "\n")

pub write_entries_lem :
    (es : List Entry) (buffer out : List ℕ)
    → write_entries buffer es ≡ some out
    → out ≡ buffer ++ lines_text es
unfolding write_entries lines_text
write_entries_lem [] buffer out h = sym (some-injective buffer out h) ∙ sym (append-nil buffer)
write_entries_lem (e ∷ es) buffer out h =
    go (write_entry buffer e) refl (λ more left. write_entries_lem es more out left) h
  where
    go :
        (o : Option (List ℕ))
        → write_entry buffer e ≡ o
        → ((more : List ℕ) → write_entries more es ≡ some out → out ≡ more ++ lines_text es)
        → let r : Option (List ℕ) = elim o [ none ↦ none | some more ↦ write_entries more es ] in
          r ≡ some out → out ≡ buffer ++ (line_text e ++ b'\n' ∷ lines_text es)
    go none made later left = cc
    go (some more) made later left =
        later more left
        ∙ ap (λ l. l ++ lines_text es) (write_entry_lem buffer e more made)
        ∙ append_assoc buffer (line_text e ++ b'\n' ∷ []) (lines_text es)
        ∙ ap (λ l. buffer ++ l) (append_assoc (line_text e) (b'\n' ∷ []) (lines_text es))

take-replicate : (n m : ℕ) → n ≤ m → take n (replicate {A = ℕ} m 0) ≡ replicate n 0
take-replicate zero m h = refl
take-replicate (suc n) zero h = absurd (omega arith)
take-replicate (suc n) (suc m) h = ap (λ l. 0 ∷ l) (take-replicate n m (omega arith))

take-append :
    (n : ℕ) (xs ys : List ℕ) → length xs ≤ n → take n (xs ++ ys) ≡ xs ++ take (n - length xs) ys
take-append n [] ys h = ap (λ k. take k ys) (omega arith)
take-append zero (x ∷ xs) ys h = absurd (omega arith)
take-append (suc n) (x ∷ xs) ys h =
    ap (λ l. x ∷ l) (take-append n xs ys (omega arith) ∙ ap (λ k. xs ++ take k ys) (omega arith))

pub take_twice : (n : ℕ) (xs : List ℕ) → take n (take n xs) ≡ take n xs
take_twice zero xs = refl
take_twice (suc n) [] = refl
take_twice (suc n) (x ∷ xs) = ap (λ l. x ∷ l) (take_twice n xs)

pub take-padded :
    (n capacity : ℕ) (bytes : List ℕ)
    → length bytes ≤ n
    → n ≤ capacity
    → take n (padded capacity bytes) ≡ bytes ++ replicate (n - length bytes) 0
take-padded n capacity bytes short room =
    take-append n bytes _ short
    ∙ ap (λ l. bytes ++ l)
        (take-replicate (n - length bytes) (capacity - length bytes) (omega arith))

length-lines_text : (es : List Entry) → length es ≤ length (lines_text es)
unfolding lines_text
length-lines_text [] = omega arith
length-lines_text (e ∷ es) =
    omega (arith, length-lines_text es, length-append (line_text e) (b'\n' ∷ lines_text es))

-- The text of the entries, padded with zeros, is parsed to the entries.
pub parse_manifest-lines_text :
    (stale : ℕ → List ℕ) (es : List Entry) (pad : ℕ)
    → 0 < length es
    → length es ≤ max_entries
    → All IsPrintable es
    → parse_manifest stale (lines_text es ++ replicate pad 0) ≡ some es
unfolding parse_manifest
parse_manifest-lines_text stale es pad pos few p =
    let bytes = lines_text es ++ replicate pad 0 in
    let enough : length es < length bytes + 1 =
      omega (arith, length-lines_text es, length-append (lines_text es) (replicate pad 0)) in
    let some_entry : (length es == 0) ≡ false = ground arith in
    ap counted (parse_lines_lem (length bytes + 1) stale [] es pad enough (omega arith) p)
    ∙ ap (λ (b : Bool). if b then none else some es) some_entry
  where
    counted : Option (List Entry) → Option (List Entry)
    counted o = elim o [ none ↦ none | some es ↦ if length es == 0 then none else some es ]
