-- ===== src/Config/Durable.antt =====
-- A change of the configuration that succeeds is there again after the next load.
use arwill.Prelude.{
  ℕ, ◌≡◌, refl, sym, ap, ◌∙◌, ◌⊎◌, ◌==◌, ◌||◌, ltb, uint32_max, Bool, true, false, not,
  if◌then◌else◌, Option, none, some, List, inl, inr,
}
use arwill.Files.{Filesystem, text, read_file, write_bytes}
use arwill.Config.Types.{
  Config, IsWellFormed, config_path, enabled_key, port_key, log_level_key, true_text, false_text,
  info_text,
}
use arwill.Text.{text_equals}
use arwill.Text.Decimal.{parse_decimal}
use arwill.Config.Parse.{copy_remote_key, set_key, set_port, load}
use arwill.Config.Store.{render, persist, commit, candidate_for, set, set_remote_key}
use arwill.Config.Values.{Keeps, IsSound, set_key-Keeps}
use arwill.Config.Update.{candidate_for-Keeps, sound}
use arwill.Config.Lines.{restored}
use arwill.Config.Roundtrip.{load-render}

module _ {F : Type 0} where
  -- The file system gives back the configuration's file as it was last written with success.
  abbrev pub IsDurable : Option (Filesystem F) → Type 0
  IsDurable fs =
      (disk : F) (output : List ℕ)
      → (write_bytes fs disk config_path text output).0 ≡ true
      → read_file fs ((write_bytes fs disk config_path text output).1) config_path
        ≡ some (record { kind = text; contents = some output })

  -- the configuration is what the next load gives
  abbrev pub IsStored : Bool × Config F × F → Type 0
  IsStored (took, c, disk) = (took ≡ false) ⊎ (load c disk ≡ (true, restored c c))

  stored :
      (c candidate : Config F) (disk : F) (output : List ℕ)
      → IsSound candidate
      → IsDurable candidate.filesystem
      → render candidate ≡ some output
      → let (written, disk') = write_bytes candidate.filesystem disk config_path text output in
        IsStored (
          if not written
          then (false, c, disk')
          else (true, record candidate { loaded_from_file = true }, disk'))
  unfolding render
  stored c candidate disk output (_, port, key, _) durable made =
      go (write_bytes candidate.filesystem disk config_path text output) (durable disk output)
    where
      go :
          (o : Bool × F)
          → (o.0 ≡ true
              → read_file candidate.filesystem o.1 config_path
                ≡ some (record { kind = text; contents = some output }))
          → IsStored (
              if not o.0
              then (false, c, o.1)
              else (true, record candidate { loaded_from_file = true }, o.1))
      go (false, disk') held = inl refl
      go (true, disk') held =
          let c' = record candidate { loaded_from_file = true } in
          inr (
            (load-render c' c' disk' port key
              (held refl ∙ ap (λ o. some (record { kind = text; contents = o })) (sym made))).1)

  commit-IsStored :
      (c candidate : Config F) (disk : F)
      → IsSound candidate
      → IsDurable candidate.filesystem
      → IsStored (commit c candidate disk)
  unfolding commit persist
  commit-IsStored c candidate disk s durable = go (render candidate) refl
    where
      go :
          (o : Option (List ℕ))
          → render candidate ≡ o
          → let r : Bool × F = elim o [
            | none ↦ (false, disk)
            | some output ↦ write_bytes (candidate.filesystem) disk config_path text output
          ] in
            IsStored (
              if not r.0
              then (false, c, r.1)
              else (true, record candidate { loaded_from_file = true }, r.1))
      go none e = inl refl
      go (some output) e = stored c candidate disk output s durable e

  abbrev KeepsDisk : Option (Config F) → Type 0
  KeepsDisk none = Unit
  KeepsDisk (some c) = IsDurable c.filesystem

  either_disk :
      (b : Bool) (x y : Option (Config F))
      → KeepsDisk x
      → KeepsDisk y
      → KeepsDisk (if b then x else y)
  either_disk true x y kx ky = kx
  either_disk false x y kx ky = ky

  set_key-KeepsDisk :
      (c : Config F) (value : List ℕ) → IsDurable c.filesystem → KeepsDisk (set_key c value)
  unfolding set_key
  set_key-KeepsDisk c value durable = go (copy_remote_key value)
    where
      go :
          (o : Option (List ℕ))
          → let r : Option (Config F) = elim o [
            | none ↦ none
            | some key ↦ some (record c { remote_key = key })
          ] in
            KeepsDisk r
      go none = tt
      go (some key) = durable

  set_port-KeepsDisk :
      (c : Config F) (value : List ℕ) → IsDurable c.filesystem → KeepsDisk (set_port c value)
  unfolding set_port
  set_port-KeepsDisk c value durable = go (parse_decimal uint32_max value)
    where
      go :
          (o : Option ℕ)
          → let r : Option (Config F) = elim o [
            | none ↦ none
            | some port ↦
                if port == 0 || ltb 65535 port then none else some (record c { remote_port = port })
          ] in
            KeepsDisk r
      go none = tt
      go (some port) = either_disk (port == 0 || ltb 65535 port) none _ tt durable

  candidate_for-KeepsDisk :
      (c : Config F) (key value : List ℕ)
      → IsDurable c.filesystem
      → KeepsDisk (candidate_for c key value)
  unfolding candidate_for
  candidate_for-KeepsDisk c key value durable =
      let nothing : KeepsDisk none = tt in
      either_disk (text_equals key enabled_key) _ _
        (either_disk (text_equals value true_text) _ _ durable
          (either_disk (text_equals value false_text) _ _ durable nothing))
        (either_disk (text_equals key port_key) _ _ (set_port-KeepsDisk c value durable) (
          either_disk (text_equals key log_level_key) _ _
            (either_disk (not (text_equals value info_text)) _ _ nothing durable) nothing))

  from_candidate :
      (c : Config F) (disk : F) (o : Option (Config F))
      → Keeps o
      → KeepsDisk o
      → let r : Bool × Config F × F = elim o [
        | none ↦ (false, c, disk)
        | some candidate ↦ commit c candidate disk
      ] in
        IsStored r
  from_candidate c disk none s durable = inl refl
  from_candidate c disk (some candidate) s durable = commit-IsStored c candidate disk s durable

  if_valid :
      (c : Config F) (disk : F) (b : Bool) (y : Bool × Config F × F)
      → (b ≡ true → IsStored y)
      → IsStored (if not b then (false, c, disk) else y)
  if_valid c disk true y changes = changes refl
  if_valid c disk false y changes = inl refl

  -- Where the file system gives back the configuration's file as it was last written with success, a
  -- change of a well-formed configuration fails, or the next load succeeds and gives the changed
  -- configuration back.
  pub set-IsStored :
      (c : Config F) (disk : F) (key value : List ℕ)
      → IsWellFormed c
      → IsDurable c.filesystem
      → IsStored (set c disk key value)
  unfolding set
  set-IsStored c disk key value w durable = if_valid c disk c.valid _ (λ up.
      from_candidate c disk (candidate_for c key value)
        (candidate_for-Keeps c key value (sound c w up))
        (candidate_for-KeepsDisk c key value durable))

  -- Where the file system gives back the configuration's file as it was last written with success, a
  -- change of the remote key of a well-formed configuration fails, or the next load succeeds and gives
  -- the changed configuration back.
  pub set_remote_key-IsStored :
      (c : Config F) (disk : F) (value : List ℕ)
      → IsWellFormed c
      → IsDurable c.filesystem
      → IsStored (set_remote_key c disk value)
  unfolding set_remote_key
  set_remote_key-IsStored c disk value w durable = if_valid c disk c.valid _ (λ up.
      from_candidate c disk (set_key c value) (set_key-Keeps c value (sound c w up))
        (set_key-KeepsDisk c value durable))
