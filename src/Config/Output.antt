-- ===== src/Config/Output.antt =====
-- The text that kernel/config.c writes to its file, and the lines that it consists of.
use arwill.Prelude.{
  ℕ, zero, suc, ◌+◌, ◌/◌, ◌%◌, ◌≤◌, ◌<◌, ◌≡◌, refl, sym, ap, ◌∙◌, inl, inr, Bool, true, false, not,
  ◌&&◌, ◌||◌, ◌==◌, ltb, leb, Bool-cases, some, List, [], ◌∷◌, ◌++◌, All, length, arith,
}
use mathlib.Core.List.{append-nil, append_assoc}
use arwill.Prelude.Lists.{length-append}
use arwill.Text.Decimal.{digits_onto, decimal32}
use arwill.Config.Types.{IsKey, IsKeyByte, port_key, key_key, output_capacity}
use arwill.Config.Parse.{copy_key_bytes, has_separator, split_line, take_line}
use arwill.Config.Store.{
  append_text, then_append, version_line, enabled_start, enabled_end, port_start, key_start,
  log_level_line,
}

-- a line holds neither of the bytes that end one
unfoldable pub is_line : List ℕ → Bool
is_line [] = true
is_line (c ∷ rest) = not (c == 10 || c == 13) && is_line rest

pub take_line_lem :
    (l rest : List ℕ) → is_line l ≡ true → take_line (l ++ 10 ∷ rest) ≡ (l, 10 ∷ rest)
unfolding take_line is_line
take_line_lem [] rest h = refl
take_line_lem (c ∷ l) rest h =
    let inside : (c == 10 || c == 13) ≡ false = ground arith in
    let later : take_line (l ++ 10 ∷ rest) ≡ (l, 10 ∷ rest) = take_line_lem l rest (ground arith) in
    rw (inside, later) refl

pub split_line_lem :
    (key value : List ℕ)
    → has_separator key ≡ false
    → has_separator value ≡ false
    → split_line (key ++ b'=' ∷ value) ≡ some (key, value)
unfolding split_line has_separator
split_line_lem [] value before behind = rw behind refl
split_line_lem (c ∷ key) value before behind =
    let other : (c == b'=') ≡ false = ground arith in
    let later = split_line_lem key value (ground arith) behind in rw (other, later) refl

pub digits_onto-is_line :
    (room value : ℕ) (l : List ℕ)
    → is_line l ≡ true
    → has_separator l ≡ false
    → (is_line (digits_onto room value l) ≡ true)
      × (has_separator (digits_onto room value l) ≡ false)
      × (length (digits_onto room value l) ≤ room + length l)
unfolding digits_onto is_line has_separator
digits_onto-is_line zero value l line none_there = (line, none_there, omega arith)
digits_onto-is_line (suc room) value l line none_there =
    let digit : value % 10 < 10 = omega arith in
    let (a, b, n) =
      digits_onto-is_line room (value / 10) ((b'0' + value % 10) ∷ l) (ground arith)
        (ground arith) in
    elim (Bool-cases (value / 10 == 0)) [
      | inl last ↦ rw last (ground arith, ground arith, omega arith)
      | inr more ↦ rw more (a, b, omega arith)
    ]

pub key_lem :
    (key : List ℕ)
    → All IsKeyByte key
    → (is_line key ≡ true) × (has_separator key ≡ false) × (copy_key_bytes key ≡ some key)
unfolding is_line has_separator copy_key_bytes
key_lem [] h = (refl, refl, refl)
key_lem (c ∷ key) ((low, high, other), h) =
    let (a, b, copied) = key_lem key h in
    let printed : (ltb c 33 || (ltb 126 c || c == b'=')) ≡ false = ground arith in
    (ground arith, ground arith, rw (copied, printed) refl)

pub append_text_lem :
    (output added : List ℕ)
    → length output + length added ≤ output_capacity
    → append_text output added ≡ some (output ++ added)
unfolding append_text
append_text_lem output [] room = ap (λ l. some l) (sym (append-nil output))
append_text_lem output (c ∷ added) room =
    let short : leb output_capacity (length output) ≡ false = ground arith in
    rw short (
      append_text_lem (output ++ c ∷ []) added (omega (arith, length-append output (c ∷ [])))
      ∙ ap (λ l. some l) (append_assoc output (c ∷ []) added))

pub decimal32-is_line :
    (port : ℕ)
    → (is_line (decimal32 port) ≡ true)
      × (has_separator (decimal32 port) ≡ false)
      × (length (decimal32 port) ≤ 10)
unfolding decimal32 is_line has_separator
decimal32-is_line port =
    let (a, b, n) = digits_onto-is_line 10 port [] refl refl in (a, b, omega arith)

-- the lines from the port on
unfoldable pub tail_of : ℕ → List ℕ → List ℕ
tail_of port key =
    (port_key ++ b'=' ∷ decimal32 port)
    ++ 10
      ∷ ((key_key ++ b'=' ∷ key)
          ++ 10
            ∷ ((b'l' ∷ b'o' ∷ b'g' ∷ b'.' ∷ b'l' ∷ b'e' ∷ b'v' ∷ b'e' ∷ b'l' ∷ b'=' ∷ b'i' ∷ b'n'
                  ∷ b'f' ∷ b'o' ∷ [])
                ++ 10 ∷ []))

-- the file
unfoldable pub text_of : Bool → ℕ → List ℕ → List ℕ
text_of enabled port key = version_line ++ enabled_start ++ enabled_end enabled ++ tail_of port key

pub length-text_of :
    (enabled : Bool) (port : ℕ) (key : List ℕ)
    → IsKey key
    → (6 ≤ length (text_of enabled port key)) × (length (text_of enabled port key) ≤ 256)
unfolding text_of tail_of
length-text_of true port key (short, _) =
    let (_, _, n) = decimal32-is_line port in
    let after_key = length-append key (log_level_line) in
    let after_port = length-append (decimal32 port) (key_start ++ key ++ log_level_line) in
    (omega (arith, after_key, after_port), omega (arith, after_key, after_port))
length-text_of false port key (short, _) =
    let (_, _, n) = decimal32-is_line port in
    let after_key = length-append key (log_level_line) in
    let after_port = length-append (decimal32 port) (key_start ++ key ++ log_level_line) in
    (omega (arith, after_key, after_port), omega (arith, after_key, after_port))

-- The last four texts that are appended.
pub append_rest :
    (head digits key : List ℕ)
    → length head ≤ 50
    → length digits ≤ 10
    → length key ≤ 64
    → then_append
        (then_append (then_append (then_append (some head) digits) key_start) key)
        log_level_line
      ≡ some (head ++ (digits ++ (key_start ++ (key ++ log_level_line))))
append_rest head digits key a b c =
    let one = append_text_lem head digits (omega arith) in
    let n1 = length-append head digits in
    let two = append_text_lem (head ++ digits) key_start (omega (arith, n1)) in
    let n2 = length-append (head ++ digits) key_start in
    let three = append_text_lem ((head ++ digits) ++ key_start) key (omega (arith, n1, n2)) in
    let n3 = length-append ((head ++ digits) ++ key_start) key in
    let four =
      append_text_lem (((head ++ digits) ++ key_start) ++ key) log_level_line
        (omega (arith, n1, n2, n3)) in
    ap (λ o. then_append (then_append (then_append o key_start) key) log_level_line) one
    ∙ ap (λ o. then_append (then_append o key) log_level_line) two
    ∙ ap (λ o. then_append o log_level_line) three
    ∙ four
    ∙ ap (λ l. some l)
        (append_assoc ((head ++ digits) ++ key_start) key log_level_line
          ∙ append_assoc (head ++ digits) key_start (key ++ log_level_line)
          ∙ append_assoc head digits (key_start ++ (key ++ log_level_line)))

pub rendered :
    (enabled : Bool) (port : ℕ) (key : List ℕ)
    → length key ≤ 64
    → let head =
        then_append
          (then_append (then_append (some []) version_line) enabled_start)
          (enabled_end enabled) in
      let digits = then_append (then_append head port_start) (decimal32 port) in
      then_append (then_append (then_append digits key_start) key) log_level_line
      ≡ some (text_of enabled port key)
unfolding append_text text_of tail_of
rendered true port key short =
    append_rest (version_line ++ enabled_start ++ enabled_end true ++ port_start) (decimal32 port)
      key (omega arith) (decimal32-is_line port).2 short
rendered false port key short =
    append_rest (version_line ++ enabled_start ++ enabled_end false ++ port_start) (decimal32 port)
      key (omega arith) (decimal32-is_line port).2 short
