-- ===== src/Text/Decimal.antt =====
-- Decimal numbers: `write_decimal` and `parse_decimal_token` of kernel/arfs.c, `append_decimal` and
-- `parse_decimal` of kernel/config.c. The largest word is a parameter: 2^64 - 1 or 2^32 - 1.
use arwill.Prelude.{
  ℕ, zero, suc, ◌+◌, ◌-◌, ◌*◌, ◌/◌, ◌%◌, ◌^◌, ◌≤◌, ◌<◌, ◌≡◌, refl, Bool, false, not, ◌||◌, ◌==◌,
  ltb, uint32_max, uint64_max, ap, sym, ◌∙◌, if◌then◌else◌, inl, inr, Bool-cases, Option, none,
  some, List, [], ◌∷◌, arith,
}
use native.Mathlib.Nat.{pow-succ'}

-- The `do` loop that makes the digits: the buffer `reversed`, read from its end, is the list. The fuel
-- is the buffer's size.
unfoldable pub digits_onto : ℕ → ℕ → List ℕ → List ℕ
digits_onto zero value digits = digits
digits_onto (suc room) value digits =
    let grown = (b'0' + value % 10) ∷ digits in
    let rest = digits_onto room (value / 10) grown in if value / 10 == 0 then grown else rest

unfoldable pub is_digit : ℕ → Bool
is_digit c = not (ltb c b'0' || ltb b'9' c)

-- The loop of `parse_decimal_token` and of `parse_decimal`, after the digits that made `result`.
unfoldable pub parse_digits : ℕ → ℕ → List ℕ → Option ℕ
parse_digits max result [] = some result
parse_digits max result (c ∷ rest) =
    let digit = c - b'0' in
    let next = parse_digits max (result * 10 + digit) rest in
    if ltb c b'0' || ltb b'9' c
    then none
    else if ltb ((max - digit) / 10) result
    then none
    else next

-- `parse_decimal_token` and `parse_decimal`; `none` is their result 0.
unfoldable pub parse_decimal : ℕ → List ℕ → Option ℕ
parse_decimal max [] = none
parse_decimal max (c ∷ rest) = parse_digits max 0 (c ∷ rest)

-- A step of the parser over a digit that was written.
parse_one :
    (max result d : ℕ) (rest : List ℕ)
    → d < 10
    → result * 10 + d ≤ max
    → parse_digits max result ((b'0' + d) ∷ rest) ≡ parse_digits max (result * 10 + d) rest
unfolding parse_digits
parse_one max result d rest small fits =
    let back : b'0' + d - b'0' ≡ d = omega arith in
    let in_range : (ltb (b'0' + d) b'0' || ltb b'9' (b'0' + d)) ≡ false = ground arith in
    let no_overflow : ltb ((max - d) / 10) result ≡ false = ground arith in
    rw (in_range, back, no_overflow) refl

parse-digits_onto :
    (room max value : ℕ) (rest : List ℕ)
    → value ≤ max
    → value < 10 ^ room
    → parse_digits max 0 (digits_onto room value rest) ≡ parse_digits max value rest
unfolding digits_onto
parse-digits_onto zero max value rest fits few = ap (λ v. parse_digits max v rest) (omega arith)
parse-digits_onto (suc room) max value rest fits few =
    let d = value % 10 in
    let grown = (b'0' + d) ∷ rest in
    let whole : value / 10 * 10 + d ≡ value = omega arith in
    let step = parse_one max (value / 10) d rest (omega arith) (omega arith) in
    let step' = step ∙ ap (λ v. parse_digits max v rest) whole in
    elim (Bool-cases (value / 10 == 0)) [
      | inl last ↦ rw last (
          let none_before : value / 10 ≡ 0 = ground arith in
          ap (λ v. parse_digits max v grown) (sym none_before) ∙ step')
      | inr more ↦ rw more (
          parse-digits_onto room max (value / 10) grown (omega arith)
            (omega (arith, pow-succ' 10 room))
          ∙ step')
    ]

-- `write_decimal` of kernel/arfs.c: the digits of a 64-bit word, in a buffer of 20.
unfoldable pub decimal64 : ℕ → List ℕ
decimal64 value = digits_onto 20 value []

-- `append_decimal` of kernel/config.c: the digits of a 32-bit word, in a buffer of 10.
unfoldable pub decimal32 : ℕ → List ℕ
decimal32 value = digits_onto 10 value []

not_empty :
    (room max value x : ℕ) (rest : List ℕ)
    → parse_decimal max (digits_onto room value (x ∷ rest))
      ≡ parse_digits max 0 (digits_onto room value (x ∷ rest))
unfolding digits_onto parse_decimal
not_empty zero max value x rest = refl
not_empty (suc room) max value x rest = elim (Bool-cases (value / 10 == 0)) [
  | inl last ↦ rw last refl
  | inr more ↦ rw more (not_empty room max (value / 10) (b'0' + value % 10) (x ∷ rest))
]

some_digits :
    (room max value : ℕ)
    → parse_decimal max (digits_onto (suc room) value [])
      ≡ parse_digits max 0 (digits_onto (suc room) value [])
unfolding digits_onto parse_decimal
some_digits room max value = elim (Bool-cases (value / 10 == 0)) [
  | inl last ↦ rw last refl
  | inr more ↦ rw more (not_empty room max (value / 10) (b'0' + value % 10) [])
]

-- Every 64-bit word that kernel/arfs.c writes in decimal is parsed back as itself.
pub parse_decimal-decimal64 : (n : ℕ) → n < 2 ^ 64 → parse_decimal uint64_max (decimal64 n) ≡ some n
unfolding decimal64 parse_digits
parse_decimal-decimal64 n h =
    some_digits 19 uint64_max n ∙ parse-digits_onto 20 uint64_max n [] (omega arith) (omega arith)

-- Every 32-bit word that kernel/config.c writes in decimal is parsed back as itself.
pub parse_decimal-decimal32 : (n : ℕ) → n < 2 ^ 32 → parse_decimal uint32_max (decimal32 n) ≡ some n
unfolding decimal32 parse_digits
parse_decimal-decimal32 n h =
    some_digits 9 uint32_max n ∙ parse-digits_onto 10 uint32_max n [] (omega arith) (omega arith)
