-- ===== src/Config/Safety.antt =====
-- What every configuration keeps that kernel/config.c loads, whatever its file holds.
use arwill.Prelude.{
  ℕ, zero, suc, ◌≡◌, refl, inl, inr, Bool, true, false, not, ◌||◌, if◌then◌else◌, ◌==◌, ltb, has,
  Bool-cases, Option, none, some, List, [], ◌∷◌, length, arith,
}
use arwill.Files.{FileType, File, read_file}
use arwill.Config.Types.{
  Config, IsWellFormed, set_defaults, refused, config_path, file_capacity, seen_all, version_key,
  enabled_key, port_key, key_key, log_level_key, seen_version, seen_remote_enabled,
  seen_remote_port, seen_remote_key, seen_log_level,
}
use arwill.Config.Parse.{
  token_equals, set_version, set_enabled, set_port, set_key, set_log_level, mark, parse_field,
  split_line, parse_line, take_line, skip, parse_lines, load_bytes, load, is_nil, is_binary,
}
use arwill.Config.Values.{
  Keeps, KeepsMarked, IsSound, set_version-Keeps, set_enabled-Keeps, set_port-Keeps, set_key-Keeps,
  set_log_level-Keeps,
}

module _ {F : Type 0} where
  mark-Keeps : (seen field : ℕ) (o : Option (Config F)) → Keeps o → KeepsMarked (mark seen field o)
  mark-Keeps seen field none k = tt
  mark-Keeps seen field (some c) k = elim (Bool-cases (has seen field)) [
    | inl again ↦ rw again tt
    | inr once ↦ rw once k
  ]

  either-Keeps :
      (b : Bool) (x y : Option (Config F × ℕ))
      → KeepsMarked x
      → KeepsMarked y
      → KeepsMarked (if b then x else y)
  either-Keeps true x y kx ky = kx
  either-Keeps false x y kx ky = ky

  parse_field-Keeps :
      (c : Config F) (key value : List ℕ) (seen : ℕ)
      → IsSound c
      → KeepsMarked (parse_field c key value seen)
  unfolding parse_field
  parse_field-Keeps c key value seen w =
      let none_kept : KeepsMarked {F = F} none = tt in
      either-Keeps (token_equals key version_key) _ _
        (mark-Keeps seen seen_version (set_version c value) (set_version-Keeps c value w))
        (either-Keeps (token_equals key enabled_key) _ _
          (mark-Keeps seen seen_remote_enabled (set_enabled c value) (set_enabled-Keeps c value w))
          (either-Keeps (token_equals key port_key) _ _
            (mark-Keeps seen seen_remote_port (set_port c value) (set_port-Keeps c value w))
            (either-Keeps (token_equals key key_key) _ _
              (mark-Keeps seen seen_remote_key (set_key c value) (set_key-Keeps c value w))
              (either-Keeps (token_equals key log_level_key) _ _
                (mark-Keeps seen seen_log_level (set_log_level c value)
                  (set_log_level-Keeps c value w))
                none_kept))))

  parse_line-Keeps :
      (c : Config F) (line : List ℕ) (seen : ℕ) → IsSound c → KeepsMarked (parse_line c line seen)
  unfolding parse_line
  parse_line-Keeps c line seen w = go (split_line line)
    where
      go :
          (o : Option (List ℕ × List ℕ))
          → let r : Option (Config F × ℕ) = elim o [
            | none ↦ none
            | some (key, value) ↦ if is_nil key then none else parse_field c key value seen
          ] in
            KeepsMarked r
      go none = tt
      go (some (key, value)) =
          either-Keeps (is_nil key) none (parse_field c key value seen) tt
            (parse_field-Keeps c key value seen w)

  parse_lines-Keeps :
      (fuel : ℕ) (c : Config F) (seen : ℕ) (bytes : List ℕ)
      → IsSound c
      → KeepsMarked (parse_lines fuel c seen bytes)
  unfolding parse_lines
  parse_lines-Keeps fuel c seen [] w = w
  parse_lines-Keeps zero c seen (b ∷ bytes) w = tt
  parse_lines-Keeps (suc fuel) c seen (b ∷ bytes) w =
      line (λ c' seen' k. parse_lines-Keeps fuel c' seen' rest k) ((take_line (b ∷ bytes)).0)
    where
      rest : List ℕ
      rest = skip 10 (skip 13 ((take_line (b ∷ bytes)).1))

      after :
          ((c' : Config F) (seen' : ℕ) → IsSound c' → KeepsMarked (parse_lines fuel c' seen' rest))
          → (o : Option (Config F × ℕ)) → KeepsMarked o
          → let r : Option (Config F × ℕ) = elim o [
            | none ↦ none
            | some (c', seen') ↦ parse_lines fuel c' seen' rest
          ] in
            KeepsMarked r
      after ih none k = tt
      after ih (some (c', seen')) k = ih c' seen' k

      line :
          ((c' : Config F) (seen' : ℕ) → IsSound c' → KeepsMarked (parse_lines fuel c' seen' rest))
          → (l : List ℕ)
          → let r : Option (Config F × ℕ) = elim l [
            | [] ↦ none
            | x ∷ xs ↦ elim (parse_line c (x ∷ xs) seen) [
              | none ↦ none
              | some (c', seen') ↦ parse_lines fuel c' seen' rest
            ]
          ] in
            KeepsMarked r
      line ih [] = tt
      line ih (x ∷ xs) = after ih (parse_line c (x ∷ xs) seen) (parse_line-Keeps c (x ∷ xs) seen w)

  refused-IsWellFormed : (c : Config F) → IsWellFormed (refused c)
  unfolding set_defaults
  refused-IsWellFormed c = (refl, (omega arith, omega arith), (omega arith, tt), inr refl)

  set_defaults-IsSound : (c : Config F) → IsSound (set_defaults c)
  unfolding set_defaults
  set_defaults-IsSound c = (refl, (omega arith, omega arith), (omega arith, tt), refl)

  -- what a load leaves: the result says whether the configuration is valid
  abbrev pub Loaded : Bool × Config F → Type 0
  Loaded (took, c) = IsWellFormed c × (c.valid ≡ took)

  refused-Loaded : (c : Config F) → Loaded (false, refused c)
  unfolding set_defaults
  refused-Loaded c = (refused-IsWellFormed c, refl)

  set_defaults-Loaded : (c : Config F) → Loaded (true, set_defaults c)
  unfolding set_defaults
  set_defaults-Loaded c =
      let (first, port, key, up) = set_defaults-IsSound c in ((first, port, key, inl up), refl)

  either-Loaded :
      (b : Bool) (x y : Bool × Config F) → Loaded x → Loaded y → Loaded (if b then x else y)
  either-Loaded true x y lx ly = lx
  either-Loaded false x y lx ly = ly

  load_bytes-Loaded :
      (c : Config F) (kind : FileType) (bytes : List ℕ) → Loaded (load_bytes c kind bytes)
  unfolding load_bytes
  load_bytes-Loaded c kind bytes =
      either-Loaded (is_binary kind || (length bytes == 0 || ltb file_capacity (length bytes))) _ _
        (refused-Loaded c)
        (go (parse_lines (length bytes) (set_defaults c) 0 bytes)
          (parse_lines-Keeps (length bytes) (set_defaults c) 0 bytes (set_defaults-IsSound c)))
    where
      go :
          (o : Option (Config F × ℕ))
          → KeepsMarked o
          → let r : Bool × Config F = elim o [
            | none ↦ (false, refused c)
            | some (candidate, seen) ↦
                if not (seen == seen_all)
                then (false, refused c)
                else (true, record candidate { loaded_from_file = true; valid = true })
          ] in
            Loaded r
      go none k = refused-Loaded c
      go (some (candidate, seen)) (first, port, key, _) =
          either-Loaded (not (seen == seen_all)) _ _ (refused-Loaded c)
            ((first, port, key, inl refl), refl)

  -- Whatever the file system answers, the configuration that a load leaves has version 1, a port from 1
  -- to 65535, a key of at most 64 printable bytes without space and `=`, and the remote service off
  -- unless it is valid; and the load's result says whether it is valid.
  pub load-Loaded : (c : Config F) (disk : F) → Loaded (load c disk)
  unfolding load
  load-Loaded c disk = go (read_file c.filesystem disk config_path)
    where
      held :
          (kind : FileType) (o : Option (List ℕ))
          → let r : Bool × Config F = elim o [
            | none ↦ (false, refused c)
            | some bytes ↦ load_bytes c kind bytes
          ] in
            Loaded r
      held kind none = refused-Loaded c
      held kind (some bytes) = load_bytes-Loaded c kind bytes

      go :
          (o : Option File)
          → let r : Bool × Config F = elim o [
            | none ↦ (true, set_defaults c)
            | some found ↦ elim (found.contents) [
              | none ↦ (false, refused c)
              | some bytes ↦ load_bytes c (found.kind) bytes
            ]
          ] in
            Loaded r
      go none = set_defaults-Loaded c
      go (some found) = held found.kind found.contents
