-- ===== src/Config/Lines.antt =====
-- How `parse_line` reads each line of the text that kernel/config.c writes.
use arwill.Prelude.{
  ℕ, suc, ◌≡◌, refl, ap, ◌∙◌, Bool, true, false, ◌||◌, if◌then◌else◌, ◌==◌, ltb, leb, Option, none,
  some, List, [], ◌∷◌, ◌++◌, length, arith,
}
use arwill.Text.Decimal.{parse_digits, decimal32, parse_decimal, parse_decimal-decimal32}
use arwill.Config.Types.{
  Config, IsPort, IsKey, log_info, port_key, key_key, remote_key_capacity, seen_remote_port,
  seen_remote_key,
}
use arwill.Config.Parse.{
  copy_key_bytes, copy_remote_key, has_separator, split_line, skip, parse_line, parse_lines,
  parse_field, token_equals, set_version, set_enabled, set_port, set_key, set_log_level, is_nil,
  mark,
}
use arwill.Config.Output.{is_line, take_line_lem, split_line_lem, key_lem, decimal32-is_line}

module _ {F : Type 0} where
  -- One round of the loop, over a line that is parsed.
  pub one_line :
      (fuel : ℕ) (c c' : Config F) (seen seen' x : ℕ) (l rest : List ℕ)
      → is_line (x ∷ l) ≡ true
      → parse_line c (x ∷ l) seen ≡ some (c', seen')
      → parse_lines (suc fuel) c seen ((x ∷ l) ++ 10 ∷ rest) ≡ parse_lines fuel c' seen' rest
  unfolding parse_lines
  one_line fuel c c' seen seen' x l rest line parsed =
      ap round (take_line_lem (x ∷ l) rest line) ∙ ap after parsed
    where
      round : List ℕ × List ℕ → Option (Config F × ℕ)
      round t = elim (t.0) [
        | [] ↦ none
        | y ∷ ys ↦ elim (parse_line c (y ∷ ys) seen) [
          | none ↦ none
          | some (next, seen_next) ↦ parse_lines fuel next seen_next (skip 10 (skip 13 (t.1)))
        ]
      ]

      after : Option (Config F × ℕ) → Option (Config F × ℕ)
      after o = elim o [
        | none ↦ none
        | some (next, seen_next) ↦ parse_lines fuel next seen_next rest
      ]

  pub first_line :
      (c : Config F)
      → parse_line c
          (b'c' ∷ b'o' ∷ b'n' ∷ b'f' ∷ b'i' ∷ b'g' ∷ b'.' ∷ b'v' ∷ b'e' ∷ b'r' ∷ b's' ∷ b'i' ∷ b'o'
            ∷ b'n' ∷ b'=' ∷ b'1' ∷ [])
          0
        ≡ some (record c { version = 1 }, 1)
  unfolding parse_line split_line has_separator parse_field token_equals set_version parse_decimal
      parse_digits
  first_line c = refl

  pub enabled_line :
      (c : Config F)
      → parse_line c
          (b'r' ∷ b'e' ∷ b'm' ∷ b'o' ∷ b't' ∷ b'e' ∷ b'.' ∷ b'e' ∷ b'n' ∷ b'a' ∷ b'b' ∷ b'l' ∷ b'e'
            ∷ b'd' ∷ b'=' ∷ b't' ∷ b'r' ∷ b'u' ∷ b'e' ∷ [])
          1
        ≡ some (record c { remote_enabled = true }, 3)
  unfolding parse_line split_line has_separator parse_field token_equals set_enabled
  enabled_line c = refl

  pub disabled_line :
      (c : Config F)
      → parse_line c
          (b'r' ∷ b'e' ∷ b'm' ∷ b'o' ∷ b't' ∷ b'e' ∷ b'.' ∷ b'e' ∷ b'n' ∷ b'a' ∷ b'b' ∷ b'l' ∷ b'e'
            ∷ b'd' ∷ b'=' ∷ b'f' ∷ b'a' ∷ b'l' ∷ b's' ∷ b'e' ∷ [])
          1
        ≡ some (record c { remote_enabled = false }, 3)
  unfolding parse_line split_line has_separator parse_field token_equals set_enabled
  disabled_line c = refl

  pub last_line :
      (c : Config F)
      → parse_line c
          (b'l' ∷ b'o' ∷ b'g' ∷ b'.' ∷ b'l' ∷ b'e' ∷ b'v' ∷ b'e' ∷ b'l' ∷ b'=' ∷ b'i' ∷ b'n' ∷ b'f'
            ∷ b'o' ∷ [])
          15
        ≡ some (record c { log_level = log_info }, 31)
  unfolding parse_line split_line has_separator parse_field token_equals set_log_level
  last_line c = refl

  -- A line that has one separator is parsed by its key.
  pub parse_line_lem :
      (c : Config F) (x : ℕ) (key value : List ℕ) (seen : ℕ)
      → has_separator (x ∷ key) ≡ false
      → has_separator value ≡ false
      → parse_line c ((x ∷ key) ++ b'=' ∷ value) seen ≡ parse_field c (x ∷ key) value seen
  unfolding parse_line
  parse_line_lem c x key value seen before behind =
      ap named (split_line_lem (x ∷ key) value before behind)
    where
      named : Option (List ℕ × List ℕ) → Option (Config F × ℕ)
      named o = elim o [
        | none ↦ none
        | some (k, v) ↦ if is_nil k then none else parse_field c k v seen
      ]

  pub port_field :
      (c : Config F) (value : List ℕ)
      → parse_field c port_key value 3 ≡ mark 3 seen_remote_port (set_port c value)
  unfolding parse_field token_equals
  port_field c value = refl

  pub key_field :
      (c : Config F) (value : List ℕ)
      → parse_field c key_key value 7 ≡ mark 7 seen_remote_key (set_key c value)
  unfolding parse_field token_equals
  key_field c value = refl

  pub set_port-decimal32 :
      (c : Config F) (port : ℕ)
      → IsPort port
      → set_port c (decimal32 port) ≡ some (record c { remote_port = port })
  unfolding set_port
  set_port-decimal32 c port (pos, word) =
      let in_range : (port == 0 || ltb 65535 port) ≡ false = ground arith in
      ap taken (parse_decimal-decimal32 port (omega arith)) ∙ ap choose in_range
    where
      taken : Option ℕ → Option (Config F)
      taken o = elim o [
        | none ↦ none
        | some p ↦ if p == 0 || ltb 65535 p then none else some (record c { remote_port = p })
      ]

      choose : Bool → Option (Config F)
      choose b = if b then none else some (record c { remote_port = port })

  pub set_key_lem :
      (c : Config F) (key : List ℕ)
      → IsKey key
      → set_key c key ≡ some (record c { remote_key = key })
  unfolding set_key copy_remote_key
  set_key_lem c key (short, bytes) =
      let (_, _, copied) = key_lem key bytes in
      let fits : leb remote_key_capacity (length key) ≡ false = ground arith in
      ap taken (ap choose fits ∙ copied)
    where
      taken : Option (List ℕ) → Option (Config F)
      taken o = elim o [ none ↦ none | some k ↦ some (record c { remote_key = k }) ]

      choose : Bool → Option (List ℕ)
      choose b = if b then none else copy_key_bytes key

  pub port_line :
      (c : Config F) (port : ℕ)
      → IsPort port
      → parse_line c (port_key ++ b'=' ∷ decimal32 port) 3
        ≡ some (record c { remote_port = port }, 7)
  unfolding has_separator
  port_line c port h =
      let (_, none_there, _) = decimal32-is_line port in
      parse_line_lem c b'r'
        (b'e' ∷ b'm' ∷ b'o' ∷ b't' ∷ b'e' ∷ b'.' ∷ b'p' ∷ b'o' ∷ b'r' ∷ b't' ∷ []) (decimal32 port)
        3 refl none_there
      ∙ port_field c (decimal32 port)
      ∙ ap (mark 3 seen_remote_port) (set_port-decimal32 c port h)

  pub key_line :
      (c : Config F) (key : List ℕ)
      → IsKey key
      → parse_line c (key_key ++ b'=' ∷ key) 7 ≡ some (record c { remote_key = key }, 15)
  unfolding has_separator
  key_line c key h =
      let (_, none_there, _) = key_lem key h.1 in
      parse_line_lem c b'r' (b'e' ∷ b'm' ∷ b'o' ∷ b't' ∷ b'e' ∷ b'.' ∷ b'k' ∷ b'e' ∷ b'y' ∷ []) key
        7 refl none_there
      ∙ key_field c key
      ∙ ap (mark 7 seen_remote_key) (set_key_lem c key h)

  -- what is read where the file holds what was written
  abbrev pub restored : Config F → Config F → Config F
  restored before c = record {
    filesystem = before.filesystem;
    version = 1;
    remote_enabled = c.remote_enabled;
    remote_port = c.remote_port;
    remote_key = c.remote_key;
    log_level = log_info;
    loaded_from_file = true;
    valid = true;
  }
