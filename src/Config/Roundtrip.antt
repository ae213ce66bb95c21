-- ===== src/Config/Roundtrip.antt =====
-- What kernel/config.c writes to its file is what it reads there.
use arwill.Prelude.{
  ℕ, suc, ◌≡◌, refl, ap, ◌∙◌, Bool, true, false, not, ◌||◌, if◌then◌else◌, ◌==◌, ltb, Option, none,
  some, List, [], length, is_none, arith,
}
use arwill.Text.Decimal.{decimal32}
use arwill.Files.{File, text, read_file}
use arwill.Config.Types.{
  Config, IsPort, IsKey, log_info, file_capacity, refused, seen_all, set_defaults, config_path,
}
use arwill.Config.Parse.{parse_lines, load, load_bytes, is_binary}
use arwill.Config.Store.{
  then_append, render, version_line, enabled_start, enabled_end, port_start, key_start,
  log_level_line,
}
use arwill.Config.Output.{
  is_line, key_lem, decimal32-is_line, tail_of, text_of, length-text_of, rendered,
}
use arwill.Config.Lines.{
  one_line, first_line, enabled_line, disabled_line, last_line, port_line, key_line, restored,
}

module _ {F : Type 0} where
  parse_lines_end : (n : ℕ) (c : Config F) (seen : ℕ) → parse_lines n c seen [] ≡ some (c, seen)
  unfolding parse_lines
  parse_lines_end n c seen = refl

  tail_lem :
      (n : ℕ) (c : Config F) (port : ℕ) (key : List ℕ)
      → IsPort port
      → IsKey key
      → parse_lines (suc (suc (suc n))) c 3 (tail_of port key)
        ≡ some (record c { remote_port = port; remote_key = key; log_level = log_info }, 31)
  unfolding is_line tail_of
  tail_lem n c port key p k =
      let (line, _, _) = decimal32-is_line port in
      let (key_is_line, _, _) = key_lem key k.1 in
      let c3 = record c { remote_port = port } in
      let c4 = record c3 { remote_key = key } in
      let c5 = record c4 { log_level = log_info } in
      one_line (suc (suc n)) c c3 3 7 b'r' _ _ line (port_line c port p)
      ∙ one_line (suc n) c3 c4 7 15 b'r' _ _ key_is_line (key_line c3 key k)
      ∙ one_line n c4 c5 15 31 b'l' _ [] refl (last_line c4)
      ∙ parse_lines_end n c5 31

  head_lem :
      (n : ℕ) (c : Config F) (enabled : Bool) (port : ℕ) (key : List ℕ)
      → parse_lines (suc (suc n)) c 0 (text_of enabled port key)
        ≡ parse_lines n (record c { version = 1; remote_enabled = enabled }) 3 (tail_of port key)
  unfolding is_line text_of
  head_lem n c true port key =
      one_line (suc n) c (record c { version = 1 }) 0 1 b'c' _ _ refl (first_line c)
      ∙ one_line n (record c { version = 1 }) _ 1 3 b'r' _ _ refl
          (enabled_line (record c { version = 1 }))
  head_lem n c false port key =
      one_line (suc n) c (record c { version = 1 }) 0 1 b'c' _ _ refl (first_line c)
      ∙ one_line n (record c { version = 1 }) _ 1 3 b'r' _ _ refl
          (disabled_line (record c { version = 1 }))

  render_lem :
      (c : Config F)
      → IsKey c.remote_key
      → render c ≡ some (text_of c.remote_enabled c.remote_port c.remote_key)
  unfolding render
  render_lem c (short, _) = go c.remote_enabled
    where
      go :
          (enabled : Bool)
          → let head =
              then_append
                (then_append (then_append (some []) version_line) enabled_start)
                (enabled_end enabled) in
            let port = then_append (then_append head port_start) (decimal32 c.remote_port) in
            then_append (then_append (then_append port key_start) c.remote_key) log_level_line
            ≡ some (text_of enabled c.remote_port c.remote_key)
      go true = rendered true c.remote_port c.remote_key (omega arith)
      go false = rendered false c.remote_port c.remote_key (omega arith)

  -- The text is parsed back.
  parsed :
      (before : Config F) (enabled : Bool) (port : ℕ) (key : List ℕ)
      → IsPort port
      → IsKey key
      → parse_lines
          (length (text_of enabled port key))
          (set_defaults before)
          0
          (text_of enabled port key)
        ≡ some (
          record (set_defaults before) {
            remote_enabled = enabled;
            remote_port = port;
            remote_key = key;
            log_level = log_info;
          },
          31,
        )
  unfolding text_of set_defaults
  parsed before true port key p k =
      head_lem _ (set_defaults before) true port key ∙ tail_lem _ _ port key p k
  parsed before false port key p k =
      head_lem _ (set_defaults before) false port key ∙ tail_lem _ _ port key p k

  -- The text that is written for a configuration with a port from 1 to 65535 and a printable key of at
  -- most 64 bytes fits the buffer; and where the file system gives back a text file of just these bytes,
  -- a load succeeds and restores whether the remote service is enabled, its port and its key.
  pub load-render :
      (before c : Config F) (disk : F)
      → IsPort c.remote_port
      → IsKey c.remote_key
      → read_file before.filesystem disk config_path
        ≡ some (record { kind = text; contents = render c })
      → (is_none (render c) ≡ false) × (load before disk ≡ (true, restored before c))
  unfolding load load_bytes set_defaults
  load-render before c disk p k held =
      let enabled = c.remote_enabled in
      let bytes = text_of enabled c.remote_port c.remote_key in
      let (low, high) = length-text_of enabled c.remote_port c.remote_key k in
      let fits : (is_binary text || (length bytes == 0 || ltb file_capacity (length bytes)))
          ≡ false =
        ground arith in
      (
        ap is_none (render_lem c k),
        ap found (held ∙ ap (λ o. some (record { kind = text; contents = o })) (render_lem c k))
            ∙ ap sized fits
            ∙ ap finished (parsed before enabled c.remote_port c.remote_key p k),
      )
    where
      found : Option File → Bool × Config F
      found o = elim o [
        | none ↦ (true, set_defaults before)
        | some f ↦ elim (f.contents) [
          | none ↦ (false, refused before)
          | some bytes ↦ load_bytes before (f.kind) bytes
        ]
      ]

      finished : Option (Config F × ℕ) → Bool × Config F
      finished o = elim o [
        | none ↦ (false, refused before)
        | some (candidate, seen) ↦
            if not (seen == seen_all)
            then (false, refused before)
            else (true, record candidate { loaded_from_file = true; valid = true })
      ]

      sized : Bool → Bool × Config F
      sized b =
          let bytes = text_of c.remote_enabled c.remote_port c.remote_key in
          if b
          then (false, refused before)
          else finished (parse_lines (length bytes) (set_defaults before) 0 bytes)
