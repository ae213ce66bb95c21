-- ===== src/Config/Store.antt =====
-- How kernel/config.c changes and writes its file: `persist_config`, `arwill_config_set` and
-- `arwill_config_set_remote_key`.
use arwill.Prelude.{
  ℕ, Bool, true, false, not, if◌then◌else◌, leb, Option, none, some, List, [], ◌∷◌, ◌++◌, length,
}
use arwill.Text.{text_equals}
use arwill.Text.Decimal.{decimal32}
use arwill.Files.{text, write_bytes}
use arwill.Config.Types.{
  Config, log_info, output_capacity, config_path, enabled_key, port_key, log_level_key, true_text,
  false_text, info_text,
}
use arwill.Config.Parse.{set_key, set_port}

-- `append_text`, and the second loop of `append_decimal`: the output behind which a text is put.
unfoldable pub append_text : List ℕ → List ℕ → Option (List ℕ)
append_text output [] = some output
append_text output (c ∷ rest) =
    let more = append_text (output ++ c ∷ []) rest in
    if leb output_capacity (length output) then none else more

-- the next call in a chain of `||`, where those before may have failed
abbrev pub then_append : Option (List ℕ) → List ℕ → Option (List ℕ)
then_append none added = none
then_append (some output) added = append_text output added

-- "config.version=1\n", "remote.enabled=", "true\n", "false\n", "remote.port=", "\nremote.key=" and
-- "\nlog.level=info\n"
abbrev pub version_line : List ℕ
version_line =
    b'c' ∷ b'o' ∷ b'n' ∷ b'f' ∷ b'i' ∷ b'g' ∷ b'.' ∷ b'v' ∷ b'e' ∷ b'r' ∷ b's' ∷ b'i' ∷ b'o' ∷ b'n'
    ∷ b'=' ∷ b'1' ∷ 10 ∷ []

abbrev pub enabled_start : List ℕ
enabled_start =
    b'r' ∷ b'e' ∷ b'm' ∷ b'o' ∷ b't' ∷ b'e' ∷ b'.' ∷ b'e' ∷ b'n' ∷ b'a' ∷ b'b' ∷ b'l' ∷ b'e' ∷ b'd'
    ∷ b'=' ∷ []

abbrev pub enabled_end : Bool → List ℕ
enabled_end true = b't' ∷ b'r' ∷ b'u' ∷ b'e' ∷ 10 ∷ []
enabled_end false = b'f' ∷ b'a' ∷ b'l' ∷ b's' ∷ b'e' ∷ 10 ∷ []

abbrev pub port_start : List ℕ
port_start = b'r' ∷ b'e' ∷ b'm' ∷ b'o' ∷ b't' ∷ b'e' ∷ b'.' ∷ b'p' ∷ b'o' ∷ b'r' ∷ b't' ∷ b'=' ∷ []

abbrev pub key_start : List ℕ
key_start = 10 ∷ b'r' ∷ b'e' ∷ b'm' ∷ b'o' ∷ b't' ∷ b'e' ∷ b'.' ∷ b'k' ∷ b'e' ∷ b'y' ∷ b'=' ∷ []

abbrev pub log_level_line : List ℕ
log_level_line =
    10 ∷ b'l' ∷ b'o' ∷ b'g' ∷ b'.' ∷ b'l' ∷ b'e' ∷ b'v' ∷ b'e' ∷ b'l' ∷ b'=' ∷ b'i' ∷ b'n' ∷ b'f'
    ∷ b'o' ∷ 10 ∷ []

module _ {F : Type 0} where
  -- the text that `persist_config` makes, or `none` where it does not fit the buffer
  unfoldable pub render : Config F → Option (List ℕ)
  render c =
      let head =
        then_append (then_append (then_append (some []) version_line) enabled_start)
          (enabled_end c.remote_enabled) in
      let port = then_append (then_append head port_start) (decimal32 c.remote_port) in
      then_append (then_append (then_append port key_start) c.remote_key) log_level_line

  -- `persist_config`
  unfoldable pub persist : Config F → F → Bool × F
  persist c disk = elim (render c) [
    | none ↦ (false, disk)
    | some output ↦ write_bytes (c.filesystem) disk config_path text output
  ]

  -- What `arwill_config_set` and `arwill_config_set_remote_key` do with their candidate.
  unfoldable pub commit : Config F → Config F → F → Bool × Config F × F
  commit c candidate disk =
      let (stored, disk') = persist candidate disk in
      if not stored
      then (false, c, disk')
      else (true, record candidate { loaded_from_file = true }, disk')

  -- the candidate of `arwill_config_set`
  unfoldable pub candidate_for : Config F → List ℕ → List ℕ → Option (Config F)
  candidate_for c key value =
      if text_equals key enabled_key
      then (if text_equals value true_text
          then some (record c { remote_enabled = true })
          else if text_equals value false_text
          then some (record c { remote_enabled = false })
          else none)
      else if text_equals key port_key
      then set_port c value
      else if text_equals key log_level_key
      then (if not (text_equals value info_text)
          then none
          else some (record c { log_level = log_info }))
      else none

  -- `arwill_config_set`
  unfoldable pub set : Config F → F → List ℕ → List ℕ → Bool × Config F × F
  set c disk key value =
      if not c.valid then (false, c, disk) else elim (candidate_for c key value) [
        | none ↦ (false, c, disk)
        | some candidate ↦ commit c candidate disk
      ]

  -- `arwill_config_set_remote_key`
  unfoldable pub set_remote_key : Config F → F → List ℕ → Bool × Config F × F
  set_remote_key c disk value = if not c.valid then (false, c, disk) else elim (set_key c value) [
    | none ↦ (false, c, disk)
    | some candidate ↦ commit c candidate disk
  ]
