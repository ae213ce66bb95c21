-- ===== src/Arfs/Parse.antt =====
-- How kernel/arfs.c reads the manifest: `next_token`, `parse_directory_line`, `parse_file_line` and
-- `parse_manifest`. `stale` gives the name that each slot of the array of entries holds from before.
use arwill.Prelude.{
  ℕ, zero, suc, ◌+◌, true, false, ◌&&◌, ◌||◌, if◌then◌else◌, ◌==◌, leb, uint64_max, Option, none,
  some, List, [], ◌∷◌, ◌++◌, length, codes,
}
use arwill.Text.{text_equals}
use arwill.Text.Decimal.{parse_decimal}
use arwill.Files.{FileType, text, binary}
use arwill.Arfs.Types.{file, Entry, max_entries, max_path_length}
use arwill.Arfs.Paths.{copy_token, derive_name}
use arwill.Arfs.Ops.{add_directory_entry}

-- The loops of `next_token`: over the spaces, and over the token, up to the end of the line.
unfoldable pub skip_spaces : List ℕ → List ℕ
skip_spaces [] = []
skip_spaces (c ∷ rest) = let later = skip_spaces rest in if c == b' ' then later else c ∷ rest

unfoldable pub take_token : List ℕ → List ℕ × List ℕ
take_token [] = ([], [])
take_token (c ∷ rest) =
    let later = take_token rest in if c == b' ' then ([], c ∷ rest) else (c ∷ later.0, later.1)

-- `next_token`: the token, and the line from the cursor on.
unfoldable pub next_token : List ℕ → List ℕ × List ℕ
next_token line = take_token (skip_spaces line)

-- the file type that a token names
unfoldable pub parse_type : List ℕ → Option FileType
parse_type token =
    if text_equals token (codes "text")
    then some text
    else if text_equals token (codes "binary")
    then some binary
    else none

-- `add_file_entry`
unfoldable pub add_file_entry : List Entry → List ℕ → List ℕ → List ℕ → ℕ → ℕ → Option (List Entry)
add_file_entry es stale path type data_lba size_bytes =
    if leb max_entries (length es) then none else elim (parse_type type) [
      | none ↦ none
      | some file_type ↦ elim (copy_token max_path_length path) [
        | none ↦ none
        | some copied ↦ some (
            es
            ++ record {
              kind = file;
              file_type = file_type;
              path = copied;
              name = derive_name copied stale;
              data_lba = data_lba;
              size_bytes = size_bytes;
            }
              ∷ [])
      ]
    ]

-- `parse_directory_line`
unfoldable pub parse_directory_line : List Entry → List ℕ → List ℕ → Option (List Entry)
parse_directory_line es stale line = add_directory_entry es stale ((next_token line).0)

-- The end of `parse_file_line`, behind its calls of `next_token`.
unfoldable pub add_tokens :
    List Entry → List ℕ → List ℕ → List ℕ → List ℕ → List ℕ → Option (List Entry)
add_tokens es stale path type lba size = elim (parse_decimal uint64_max lba) [
  | none ↦ none
  | some data_lba ↦ elim (parse_decimal uint64_max size) [
    | none ↦ none
    | some size_bytes ↦ add_file_entry es stale path type data_lba size_bytes
  ]
]

-- `parse_file_line`
unfoldable pub parse_file_line : List Entry → List ℕ → List ℕ → Option (List Entry)
parse_file_line es stale line =
    let (path, after_path) = next_token line in
    let (type, after_type) = next_token after_path in
    let (lba, after_lba) = next_token after_type in
    let (size, _) = next_token after_lba in add_tokens es stale path type lba size

-- The last test of a round of `parse_manifest`, on its line.
unfoldable pub parse_line : List Entry → List ℕ → List ℕ → Option (List Entry)
parse_line es stale [] = none
parse_line es stale (a ∷ []) = none
parse_line es stale (a ∷ b ∷ rest) =
    if a == b'D' && b == b' '
    then parse_directory_line es stale rest
    else if a == b'F' && b == b' '
    then parse_file_line es stale rest
    else none

unfoldable pub skip_line_ends : List ℕ → List ℕ
skip_line_ends [] = []
skip_line_ends (c ∷ rest) =
    let later = skip_line_ends rest in if c == b'\n' || c == b'\r' then later else c ∷ rest

unfoldable pub take_line : List ℕ → List ℕ × List ℕ
take_line [] = ([], [])
take_line (c ∷ rest) =
    let later = take_line rest in
    if c == b'\n' || (c == b'\r' || c == 0) then ([], c ∷ rest) else (c ∷ later.0, later.1)

-- The loop of `parse_manifest`. Each round but the last takes a byte at least, so that one round more
-- than there are bytes is fuel enough.
unfoldable pub parse_lines : ℕ → (ℕ → List ℕ) → List Entry → List ℕ → Option (List Entry)
parse_lines zero stale es bytes = none
parse_lines (suc fuel) stale es bytes = elim (skip_line_ends bytes) [
  | [] ↦ some es
  | c ∷ rest ↦ elim (c == 0) [
    | true ↦ some es
    | false ↦ elim (parse_line es (stale (length es)) ((take_line (c ∷ rest)).0)) [
      | none ↦ none
      | some more ↦ parse_lines fuel stale more ((take_line (c ∷ rest)).1)
    ]
  ]
]

-- `parse_manifest`: the entries, or `none` for failure.
unfoldable pub parse_manifest : (ℕ → List ℕ) → List ℕ → Option (List Entry)
parse_manifest stale bytes = elim (parse_lines (length bytes + 1) stale [] bytes) [
  | none ↦ none
  | some es ↦ if length es == 0 then none else some es
]
