-- ===== src/Arfs/FileLine.antt =====
-- `parse_file_line` of kernel/arfs.c reads back the line that `persist_manifest` writes for a file.
use arwill.Prelude.{
  ℕ, ◌^◌, ◌<◌, ◌≡◌, refl, ap, sym, ◌∙◌, true, false, leb, uint64_max, Option, none, some, List, [],
  ◌∷◌, ◌++◌, length, codes, arith,
}
use arwill.Text.{text_equals}
use arwill.Text.Decimal.{decimal64, parse_decimal, parse_decimal-decimal64}
use arwill.Files.{FileType, text, binary}
use arwill.Arfs.Types.{EntryKind, directory, file, Entry, max_entries, max_path_length}
use arwill.Arfs.Paths.{copy_token}
use arwill.Arfs.Manifest.{kind_text, type_text}
use arwill.Arfs.Parse.{next_token, parse_type, add_file_entry, parse_file_line, add_tokens}
use arwill.Arfs.Lines.{
  is_word, is_token, IsPrintable, decimal64-is_token, next_token-token, next_token_last,
  next_token_space,
}

-- what stands behind the path in an entry's line
unfoldable pub details_text : EntryKind → Entry → List ℕ
details_text directory e = []
details_text file e =
    type_text e.file_type ++ (decimal64 e.data_lba ++ (codes " " ++ decimal64 e.size_bytes))

-- the entry's line
unfoldable pub line_text : Entry → List ℕ
line_text e = kind_text e.kind ++ (e.path ++ details_text e.kind e)

add_file_entry_lem :
    (es : List Entry) (stale type : List ℕ) (e : Entry)
    → length es < max_entries
    → IsPrintable e
    → e.kind ≡ file
    → parse_type type ≡ some e.file_type
    → add_file_entry es stale e.path type e.data_lba e.size_bytes ≡ some (es ++ e ∷ [])
unfolding add_file_entry copy_token
add_file_entry_lem es stale type e few p is_file_entry typed =
    let room : leb max_entries (length es) ≡ false = ground arith in
    let short : leb max_path_length (length e.path) ≡ false = (let fits = p.fits in ground arith) in
    rw (room, typed, short)
      (ap (λ n. some (es ++ record e { kind = file; name = n } ∷ [])) (p.named stale)
        ∙ ap (λ k. some (es ++ record e { kind = k } ∷ [])) (sym is_file_entry))

add_tokens_lem :
    (es : List Entry) (stale type : List ℕ) (e : Entry)
    → length es < max_entries
    → IsPrintable e
    → e.kind ≡ file
    → e.data_lba < 2 ^ 64
    → e.size_bytes < 2 ^ 64
    → parse_type type ≡ some e.file_type
    → add_tokens es stale e.path type (decimal64 e.data_lba) (decimal64 e.size_bytes)
      ≡ some (es ++ e ∷ [])
unfolding add_tokens
add_tokens_lem es stale type e few p is_file_entry lba_word size_word typed =
    ap lba_of (parse_decimal-decimal64 e.data_lba lba_word)
    ∙ ap size_of (parse_decimal-decimal64 e.size_bytes size_word)
    ∙ add_file_entry_lem es stale type e few p is_file_entry typed
  where
    size_of : Option ℕ → Option (List Entry)
    size_of o = elim o [
      | none ↦ none
      | some size_bytes ↦ add_file_entry es stale e.path type e.data_lba size_bytes
    ]

    lba_of : Option ℕ → Option (List Entry)
    lba_of o = elim o [
      | none ↦ none
      | some data_lba ↦ elim (parse_decimal uint64_max (decimal64 e.size_bytes)) [
        | none ↦ none
        | some size_bytes ↦ add_file_entry es stale e.path type data_lba size_bytes
      ]
    ]

text_is_token : is_token (codes "text") ≡ true
unfolding is_token is_word
text_is_token = refl

binary_is_token : is_token (codes "binary") ≡ true
unfolding is_token is_word
binary_is_token = refl

text_parsed : parse_type (codes "text") ≡ some text
unfolding parse_type text_equals
text_parsed = refl

binary_parsed : parse_type (codes "binary") ≡ some binary
unfolding parse_type text_equals
binary_parsed = refl

pub parse_file_line_lem :
    (es : List Entry) (stale : List ℕ) (e : Entry)
    → length es < max_entries
    → IsPrintable e
    → e.kind ≡ file
    → (e.data_lba < 2 ^ 64) × (e.size_bytes < 2 ^ 64)
    → parse_file_line es stale (e.path ++ details_text file e) ≡ some (es ++ e ∷ [])
unfolding parse_file_line details_text
parse_file_line_lem es stale e few p is_file_entry (lba_word, size_word) = typed e.file_type refl
  where
    lba : List ℕ
    lba = decimal64 e.data_lba

    size : List ℕ
    size = decimal64 e.size_bytes

    lba_read : next_token (b' ' ∷ (lba ++ b' ' ∷ size)) ≡ (lba, b' ' ∷ size)
    lba_read =
        next_token_space (lba ++ b' ' ∷ size)
        ∙ next_token-token lba size (decimal64-is_token e.data_lba)

    size_read : next_token (b' ' ∷ size) ≡ (size, [])
    size_read = next_token_space size ∙ next_token_last size (decimal64-is_token e.size_bytes)

    typed :
        (kind : FileType)
        → e.file_type ≡ kind
        → parse_file_line es stale (e.path ++ (type_text kind ++ (lba ++ (codes " " ++ size))))
          ≡ some (es ++ e ∷ [])
    typed text same =
        let path_read =
          next_token-token e.path (codes "text " ++ (lba ++ (codes " " ++ size))) p.token in
        let type_read =
          next_token_space (codes "text " ++ (lba ++ (codes " " ++ size)))
          ∙ next_token-token (codes "text") (lba ++ (codes " " ++ size)) text_is_token in
        rw (path_read, type_read, lba_read, size_read)
          (add_tokens_lem es stale (codes "text") e few p is_file_entry lba_word size_word
            (text_parsed ∙ ap (λ k. some k) (sym same)))
    typed binary same =
        let path_read =
          next_token-token e.path (codes "binary " ++ (lba ++ (codes " " ++ size))) p.token in
        let type_read =
          next_token_space (codes "binary " ++ (lba ++ (codes " " ++ size)))
          ∙ next_token-token (codes "binary") (lba ++ (codes " " ++ size)) binary_is_token in
        rw (path_read, type_read, lba_read, size_read)
          (add_tokens_lem es stale (codes "binary") e few p is_file_entry lba_word size_word
            (binary_parsed ∙ ap (λ k. some k) (sym same)))
