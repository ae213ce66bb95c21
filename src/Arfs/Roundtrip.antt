-- ===== src/Arfs/Roundtrip.antt =====
-- `parse_manifest` of kernel/arfs.c reads back the entries that `persist_manifest` writes.
use arwill.Prelude.{
  ℕ, zero, suc, ◌+◌, ◌≤◌, ◌<◌, ◌≡◌, refl, ap, sym, ◌∙◌, true, false, leb, Option, none, some, List,
  [], ◌∷◌, ◌++◌, length, codes, arith,
}
use mathlib.Core.List.{append-nil, append_assoc}
use arwill.Text.Decimal.{decimal64}
use arwill.Files.{FileType, text, binary}
use arwill.Arfs.Types.{EntryKind, directory, file, Entry, max_entries, max_path_length}
use arwill.Arfs.Paths.{copy_token}
use arwill.Arfs.Manifest.{kind_text, type_text}
use arwill.Arfs.Ops.{add_directory_entry}
use arwill.Arfs.Parse.{next_token, parse_directory_line, parse_line, take_line}
use arwill.Arfs.Parse.{skip_line_ends, parse_lines}
use arwill.Arfs.Lines.{
  is_line, IsOfKind, IsPrintable, decimal64-is_token, token-is_line, append-is_line,
  next_token_last, take_line_lem,
}
use arwill.Arfs.FileLine.{details_text, line_text, parse_file_line_lem}
use arwill.Prelude.{All, replicate, subst}
use arwill.Prelude.Lists.{length-append}

parse_directory_line_lem :
    (es : List Entry) (stale : List ℕ) (e : Entry)
    → length es < max_entries
    → IsPrintable e
    → e.kind ≡ directory
    → (e.file_type ≡ binary) × (e.data_lba ≡ 0) × (e.size_bytes ≡ 0)
    → parse_directory_line es stale (e.path ++ []) ≡ some (es ++ e ∷ [])
unfolding parse_directory_line add_directory_entry copy_token
parse_directory_line_lem es stale e few p is_directory (typed, no_lba, no_size) =
    let room : leb max_entries (length es) ≡ false = ground arith in
    let short : leb max_path_length (length e.path) ≡ false = (let fits = p.fits in ground arith) in
    let read : next_token (e.path ++ []) ≡ (e.path, []) =
      ap next_token (append-nil e.path) ∙ next_token_last e.path p.token in
    rw (read, room, short)
      (ap
          (λ n. some (
            es
            ++ record e {
              kind = directory;
              file_type = binary;
              name = n;
              data_lba = 0;
              size_bytes = 0;
            }
              ∷ []))
          (p.named stale)
        ∙ cc)

parse_line_lem :
    (es : List Entry) (stale : List ℕ) (e : Entry)
    → length es < max_entries
    → IsPrintable e
    → parse_line es stale (line_text e) ≡ some (es ++ e ∷ [])
unfolding parse_line line_text details_text
parse_line_lem es stale e few p = go e.kind refl p.of_kind
  where
    go :
        (k : EntryKind)
        → e.kind ≡ k
        → IsOfKind k e
        → parse_line es stale (kind_text k ++ (e.path ++ details_text k e)) ≡ some (es ++ e ∷ [])
    go directory is_kind of_kind = parse_directory_line_lem es stale e few p is_kind of_kind
    go file is_kind of_kind = parse_file_line_lem es stale e few p is_kind of_kind

line_text-is_line : (e : Entry) → IsPrintable e → is_line (line_text e) ≡ true
unfolding is_line line_text details_text
line_text-is_line e p = go e.kind
  where
    numbers : is_line (decimal64 e.data_lba ++ (codes " " ++ decimal64 e.size_bytes)) ≡ true
    numbers =
        append-is_line (decimal64 e.data_lba) (codes " " ++ decimal64 e.size_bytes)
          (token-is_line (decimal64 e.data_lba) (decimal64-is_token e.data_lba))
          (token-is_line (decimal64 e.size_bytes) (decimal64-is_token e.size_bytes))

    typed :
        (k : FileType)
        → is_line (type_text k ++ (decimal64 e.data_lba ++ (codes " " ++ decimal64 e.size_bytes)))
          ≡ true
    typed text = numbers
    typed binary = numbers

    go : (k : EntryKind) → is_line (kind_text k ++ (e.path ++ details_text k e)) ≡ true
    go directory = append-is_line e.path [] (token-is_line e.path p.token) refl
    go file =
        append-is_line e.path (details_text file e) (token-is_line e.path p.token)
          (typed e.file_type)

-- the manifest's text
unfoldable pub lines_text : List Entry → List ℕ
lines_text [] = []
lines_text (e ∷ es) = line_text e ++ b'\n' ∷ lines_text es

-- a line end in front is skipped
after_line_end :
    (fuel : ℕ) (stale : ℕ → List ℕ) (es : List Entry) (bytes : List ℕ)
    → parse_lines (suc fuel) stale es (b'\n' ∷ bytes) ≡ parse_lines (suc fuel) stale es bytes
unfolding parse_lines skip_line_ends
after_line_end fuel stale es bytes = refl

one_line :
    (fuel : ℕ) (stale : ℕ → List ℕ) (es : List Entry) (e : Entry) (rest : List ℕ)
    → length es < max_entries
    → IsPrintable e
    → parse_lines (suc fuel) stale es (line_text e ++ b'\n' ∷ rest)
      ≡ parse_lines fuel stale (es ++ e ∷ []) (b'\n' ∷ rest)
unfolding parse_lines skip_line_ends line_text
one_line fuel stale es e rest few p = go e.kind refl
  where
    after : Option (List Entry) → List ℕ → Option (List Entry)
    after o rest = elim o [ none ↦ none | some more ↦ parse_lines fuel stale more rest ]

    read :
        after
          (parse_line es (stale (length es)) ((take_line (line_text e ++ b'\n' ∷ rest)).0))
          ((take_line (line_text e ++ b'\n' ∷ rest)).1)
        ≡ parse_lines fuel stale (es ++ e ∷ []) (b'\n' ∷ rest)
    read =
        ap (λ (t : List ℕ × List ℕ). after (parse_line es (stale (length es)) t.0) t.1)
          (take_line_lem (line_text e) rest (line_text-is_line e p))
        ∙ ap (λ o. after o (b'\n' ∷ rest)) (parse_line_lem es (stale (length es)) e few p)

    Reads : EntryKind → Type 0
    Reads k =
        let line = (kind_text k ++ (e.path ++ details_text e.kind e)) ++ b'\n' ∷ rest in
        after (parse_line es (stale (length es)) ((take_line line).0)) ((take_line line).1)
        ≡ parse_lines fuel stale (es ++ e ∷ []) (b'\n' ∷ rest)

    go :
        (k : EntryKind)
        → e.kind ≡ k
        → parse_lines
            (suc fuel)
            stale
            es
            ((kind_text k ++ (e.path ++ details_text e.kind e)) ++ b'\n' ∷ rest)
          ≡ parse_lines fuel stale (es ++ e ∷ []) (b'\n' ∷ rest)
    go directory same = subst Reads same read
    go file same = subst Reads same read

-- The entries of the text are read behind those there are, up to the zeros that pad it.
pub parse_lines_lem :
    (fuel : ℕ) (stale : ℕ → List ℕ) (done es : List Entry) (pad : ℕ)
    → length es < fuel
    → length done + length es ≤ max_entries
    → All IsPrintable es
    → parse_lines fuel stale done (lines_text es ++ replicate pad 0) ≡ some (done ++ es)
unfolding parse_lines lines_text skip_line_ends
parse_lines_lem zero stale done es pad enough few p = absurd (omega arith)
parse_lines_lem (suc fuel) stale done [] zero enough few p =
    ap (λ l. some l) (sym (append-nil done))
parse_lines_lem (suc fuel) stale done [] (suc pad) enough few p =
    ap (λ l. some l) (sym (append-nil done))
parse_lines_lem (suc zero) stale done (e ∷ es) pad enough few p = absurd (omega arith)
parse_lines_lem (suc (suc fuel)) stale done (e ∷ es) pad enough few (p, ps) =
    let rest = lines_text es ++ replicate pad 0 in
    ap (parse_lines (suc (suc fuel)) stale done)
      (append_assoc (line_text e) (b'\n' ∷ lines_text es) (replicate pad 0))
    ∙ one_line (suc fuel) stale done e rest (omega arith) p
    ∙ after_line_end fuel stale (done ++ e ∷ []) rest
    ∙ parse_lines_lem (suc fuel) stale (done ++ e ∷ []) es pad (omega arith)
        (omega (arith, length-append done (e ∷ []))) ps
    ∙ ap (λ l. some l) (append_assoc done (e ∷ []) es)
