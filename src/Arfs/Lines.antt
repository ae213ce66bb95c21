-- ===== src/Arfs/Lines.antt =====
-- How `parse_manifest` of kernel/arfs.c reads a line that `persist_manifest` writes.
use arwill.Prelude.{
  ℕ, zero, suc, ◌+◌, ◌/◌, ◌%◌, ◌^◌, ◌<◌, ◌≡◌, refl, ap, sym, ◌∙◌, inl, inr, Bool, true, false, not,
  ◌&&◌, ◌||◌, ◌==◌, Bool-cases, List, [], ◌∷◌, ◌++◌, length, arith,
}
use mathlib.Core.List.{append-nil}
use arwill.Text.Decimal.{digits_onto, decimal64}
use arwill.Files.{binary}
use arwill.Arfs.Types.{EntryKind, directory, file, Entry, max_path_length}
use arwill.Arfs.Paths.{derive_name}
use arwill.Arfs.Parse.{skip_spaces, take_token, next_token, take_line}

-- no byte ends a line, or the manifest
unfoldable pub is_line : List ℕ → Bool
is_line [] = true
is_line (c ∷ rest) = not (c == b'\n' || (c == b'\r' || c == 0)) && is_line rest

-- nor a token
unfoldable pub is_word : List ℕ → Bool
is_word [] = true
is_word (c ∷ rest) = not (c == b' ' || (c == b'\n' || (c == b'\r' || c == 0))) && is_word rest

unfoldable pub is_token : List ℕ → Bool
is_token [] = false
is_token (c ∷ rest) = is_word (c ∷ rest)

-- An entry that the manifest can hold: its path is a token that fits its buffer, its name is the path's
-- last part, a directory has no contents, and a file's numbers are 64-bit words.
abbrev pub IsOfKind : EntryKind → Entry → Type 0
IsOfKind directory e = (e.file_type ≡ binary) × (e.data_lba ≡ 0) × (e.size_bytes ≡ 0)
IsOfKind file e = (e.data_lba < 2 ^ 64) × (e.size_bytes < 2 ^ 64)

pub record IsPrintable (e : Entry) : Type 0 where
  pub token : is_token e.path ≡ true
  pub fits : length e.path < max_path_length
  pub named : (before : List ℕ) → derive_name e.path before ≡ e.name
  pub of_kind : IsOfKind e.kind e

word-is_line : (t : List ℕ) → is_word t ≡ true → is_line t ≡ true
unfolding is_word is_line
word-is_line [] h = refl
word-is_line (c ∷ t) h = ground (arith, word-is_line t)

pub append-is_line : (s t : List ℕ) → is_line s ≡ true → is_line t ≡ true → is_line (s ++ t) ≡ true
unfolding is_line
append-is_line [] t hs ht = ht
append-is_line (c ∷ s) t hs ht = ground (arith, append-is_line s t)

digits_onto-is_token :
    (room value : ℕ) (l : List ℕ)
    → is_word l ≡ true
    → is_token (digits_onto (suc room) value l) ≡ true
unfolding digits_onto is_word is_token
digits_onto-is_token zero value l h =
    let digit : value % 10 < 10 = omega arith in
    elim (Bool-cases (value / 10 == 0)) [
      | inl last ↦ rw last (ground arith)
      | inr more ↦ rw more (ground arith)
    ]
digits_onto-is_token (suc room) value l h =
    let digit : value % 10 < 10 = omega arith in
    elim (Bool-cases (value / 10 == 0)) [
      | inl last ↦ rw last (ground arith)
      | inr more ↦
          rw more (digits_onto-is_token room (value / 10) ((b'0' + value % 10) ∷ l) (ground arith))
    ]

pub decimal64-is_token : (n : ℕ) → is_token (decimal64 n) ≡ true
unfolding decimal64 is_word
decimal64-is_token n = digits_onto-is_token 19 n [] refl

pub token-is_line : (t : List ℕ) → is_token t ≡ true → is_line t ≡ true
unfolding is_token
token-is_line [] h = cc
token-is_line (c ∷ t) h = word-is_line (c ∷ t) h

take_token-word :
    (t rest : List ℕ) → is_word t ≡ true → take_token (t ++ b' ' ∷ rest) ≡ (t, b' ' ∷ rest)
unfolding take_token is_word
take_token-word [] rest h = refl
take_token-word (c ∷ t) rest h =
    let inside : (c == b' ') ≡ false = ground arith in
    rw (inside, take_token-word t rest (ground arith)) refl

take_token_all : (t : List ℕ) → is_word t ≡ true → take_token t ≡ (t, [])
unfolding take_token is_word
take_token_all [] h = refl
take_token_all (c ∷ t) h =
    let inside : (c == b' ') ≡ false = ground arith in
    rw (inside, take_token_all t (ground arith)) refl

skip_spaces-token : (t rest : List ℕ) → is_token t ≡ true → skip_spaces (t ++ rest) ≡ t ++ rest
unfolding skip_spaces is_token is_word
skip_spaces-token [] rest h = cc
skip_spaces-token (c ∷ t) rest h = let inside : (c == b' ') ≡ false = ground arith in rw inside refl

token-is_word : (t : List ℕ) → is_token t ≡ true → is_word t ≡ true
unfolding is_token
token-is_word [] h = cc
token-is_word (c ∷ t) h = h

-- A token is read with a space behind it, or up to the end of the line.
pub next_token-token :
    (t rest : List ℕ) → is_token t ≡ true → next_token (t ++ b' ' ∷ rest) ≡ (t, b' ' ∷ rest)
unfolding next_token
next_token-token t rest h =
    ap take_token (skip_spaces-token t (b' ' ∷ rest) h) ∙ take_token-word t rest (token-is_word t h)

pub next_token_last : (t : List ℕ) → is_token t ≡ true → next_token t ≡ (t, [])
unfolding next_token
next_token_last t h =
    ap take_token (ap skip_spaces (sym (append-nil t)) ∙ skip_spaces-token t [] h ∙ append-nil t)
    ∙ take_token_all t (token-is_word t h)

-- A space in front is skipped.
pub next_token_space : (line : List ℕ) → next_token (b' ' ∷ line) ≡ next_token line
unfolding next_token skip_spaces
next_token_space line = refl

pub take_line_lem :
    (l rest : List ℕ) → is_line l ≡ true → take_line (l ++ b'\n' ∷ rest) ≡ (l, b'\n' ∷ rest)
unfolding take_line is_line
take_line_lem [] rest h = refl
take_line_lem (c ∷ l) rest h =
    let inside : (c == b'\n' || (c == b'\r' || c == 0)) ≡ false = ground arith in
    rw (inside, take_line_lem l rest (ground arith)) refl
