-- ===== src/Config/Parse.antt =====
-- How kernel/config.c reads its file: `copy_remote_key`, `parse_line` and the loop of
-- `arwill_config_load`.
use arwill.Prelude.{
  ℕ, zero, suc, Bool, true, false, not, ◌||◌, if◌then◌else◌, ◌==◌, ltb, leb, uint32_max, has,
  bit_or, Option, none, some, List, [], ◌∷◌, length,
}
use arwill.Text.Decimal.{parse_decimal}
use arwill.Files.{FileType, text, binary, read_file}
use arwill.Config.Types.{
  Config, log_info, remote_key_capacity, file_capacity, seen_version, seen_remote_enabled,
  seen_remote_port, seen_remote_key, seen_log_level, seen_all, config_path, version_key,
  enabled_key, port_key, key_key, log_level_key, true_text, false_text, info_text, set_defaults,
  refused,
}

-- `token_equals`
unfoldable pub token_equals : List ℕ → List ℕ → Bool
token_equals [] [] = true
token_equals [] (_ ∷ _) = false
token_equals (_ ∷ _) [] = false
token_equals (t ∷ token) (e ∷ expected) =
    let rest = token_equals token expected in if not (t == e) then false else rest

-- The second loop of `copy_remote_key`, which refuses a byte that is not printed, a space and `=`.
unfoldable pub copy_key_bytes : List ℕ → Option (List ℕ)
copy_key_bytes [] = some []
copy_key_bytes (c ∷ rest) = elim (copy_key_bytes rest) [
  | none ↦ none
  | some copied ↦ if ltb c 33 || (ltb 126 c || c == b'=') then none else some (c ∷ copied)
]

-- `copy_remote_key`: the key that the destination holds then, or `none` for failure.
unfoldable pub copy_remote_key : List ℕ → Option (List ℕ)
copy_remote_key source =
    if leb remote_key_capacity (length source) then none else copy_key_bytes source

unfoldable pub has_separator : List ℕ → Bool
has_separator [] = false
has_separator (c ∷ rest) = c == b'=' || has_separator rest

-- The loop of `parse_line`: what stands before and behind the one separator.
unfoldable pub split_line : List ℕ → Option (List ℕ × List ℕ)
split_line [] = none
split_line (c ∷ rest) =
    let later = split_line rest in
    if c == b'='
    then (if has_separator rest then none else some ([], rest))
    else elim later [ none ↦ none | some (key, value) ↦ some (c ∷ key, value) ]

abbrev pub is_nil : List ℕ → Bool
is_nil [] = true
is_nil (_ ∷ _) = false

abbrev pub is_binary : FileType → Bool
is_binary text = false
is_binary binary = true

module _ {F : Type 0} where
  unfoldable pub set_version : Config F → List ℕ → Option (Config F)
  set_version c value = elim (parse_decimal uint32_max value) [
    | none ↦ none
    | some version ↦ if not (version == 1) then none else some (record c { version = version })
  ]

  unfoldable pub set_enabled : Config F → List ℕ → Option (Config F)
  set_enabled c value =
      if token_equals value true_text
      then some (record c { remote_enabled = true })
      else if token_equals value false_text
      then some (record c { remote_enabled = false })
      else none

  unfoldable pub set_port : Config F → List ℕ → Option (Config F)
  set_port c value = elim (parse_decimal uint32_max value) [
    | none ↦ none
    | some port ↦
        (if port == 0 || ltb 65535 port then none else some (record c { remote_port = port }))
  ]

  unfoldable pub set_key : Config F → List ℕ → Option (Config F)
  set_key c value = elim (copy_remote_key value) [
    | none ↦ none
    | some key ↦ some (record c { remote_key = key })
  ]

  unfoldable pub set_log_level : Config F → List ℕ → Option (Config F)
  set_log_level c value =
      if not (token_equals value info_text) then none else some (record c { log_level = log_info })

  abbrev pub mark : ℕ → ℕ → Option (Config F) → Option (Config F × ℕ)
  mark seen field none = none
  mark seen field (some c) = if has seen field then none else some (c, bit_or seen field)

  -- The tests of `parse_line` behind its loop.
  unfoldable pub parse_field : Config F → List ℕ → List ℕ → ℕ → Option (Config F × ℕ)
  parse_field c key value seen =
      if token_equals key version_key
      then mark seen seen_version (set_version c value)
      else if token_equals key enabled_key
      then mark seen seen_remote_enabled (set_enabled c value)
      else if token_equals key port_key
      then mark seen seen_remote_port (set_port c value)
      else if token_equals key key_key
      then mark seen seen_remote_key (set_key c value)
      else if token_equals key log_level_key
      then mark seen seen_log_level (set_log_level c value)
      else none

  -- `parse_line`; `none` is failure.
  unfoldable pub parse_line : Config F → List ℕ → ℕ → Option (Config F × ℕ)
  parse_line c line seen = elim (split_line line) [
    | none ↦ none
    | some (key, value) ↦ if is_nil key then none else parse_field c key value seen
  ]

-- The inner loop of `arwill_config_load`: the line, and what stands behind it.
unfoldable pub take_line : List ℕ → List ℕ × List ℕ
take_line [] = ([], [])
take_line (c ∷ rest) =
    let later = take_line rest in
    if c == 10 || c == 13 then ([], c ∷ rest) else (c ∷ later.0, later.1)

abbrev pub skip : ℕ → List ℕ → List ℕ
skip byte [] = []
skip byte (c ∷ rest) = if c == byte then rest else c ∷ rest

module _ {F : Type 0} where
  -- The loop of `arwill_config_load`, each round of which takes a byte at least, so that the number of
  -- bytes is fuel enough.
  unfoldable pub parse_lines : ℕ → Config F → ℕ → List ℕ → Option (Config F × ℕ)
  parse_lines fuel c seen [] = some (c, seen)
  parse_lines zero c seen (b ∷ rest) = none
  parse_lines (suc fuel) c seen (b ∷ rest) = elim ((take_line (b ∷ rest)).0) [
    | [] ↦ none
    | x ∷ xs ↦ elim (parse_line c (x ∷ xs) seen) [
      | none ↦ none
      | some (c', seen') ↦ parse_lines fuel c' seen' (skip 10 (skip 13 ((take_line (b ∷ rest)).1)))
    ]
  ]

  -- `arwill_config_load` of a file that has contents
  unfoldable pub load_bytes : Config F → FileType → List ℕ → Bool × Config F
  load_bytes c kind bytes =
      if is_binary kind || (length bytes == 0 || ltb file_capacity (length bytes))
      then (false, refused c)
      else elim (parse_lines (length bytes) (set_defaults c) 0 bytes) [
        | none ↦ (false, refused c)
        | some (candidate, seen) ↦
            (if not (seen == seen_all)
              then (false, refused c)
              else (true, record candidate { loaded_from_file = true; valid = true }))
      ]

  -- `arwill_config_load`
  unfoldable pub load : Config F → F → Bool × Config F
  load c disk = elim (read_file (c.filesystem) disk config_path) [
    | none ↦ (true, set_defaults c)
    | some found ↦ elim (found.contents) [
      | none ↦ (false, refused c)
      | some bytes ↦ load_bytes c (found.kind) bytes
    ]
  ]
