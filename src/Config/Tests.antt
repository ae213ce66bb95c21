-- ===== src/Config/Tests.antt =====
-- A configuration of which one file is stored and read back.
use arwill.Prelude.{
  ℕ, ◌≡◌, refl, true, false, inl, Option, none, some, List, [], ◌∷◌, is_none, arith,
}
use arwill.Files.{Filesystem, text, read_file, write_bytes}
use arwill.Config.Types.{Config, log_info, IsWellFormed, init, config_path, port_key}
use arwill.Config.Parse.{load}
use arwill.Config.Store.{render, set, set_remote_key}
use arwill.Config.Safety.{Loaded, load-Loaded}
use arwill.Config.Update.{Changed, set-Changed}
use arwill.Config.Durable.{IsDurable, IsStored, set-IsStored, set_remote_key-IsStored}
use arwill.Config.Lines.{restored}
use arwill.Config.Roundtrip.{load-render}

-- A file system of one file.
abbrev one_file : Filesystem (Option (List ℕ))
one_file = record {
  read_file = some (λ disk path. some (record { kind = text; contents = disk }));
  create_directory = none;
  write_bytes = some (λ disk path kind bytes. (true, some bytes));
  remove = none;
  list = none;
  storage_stats = none;
}

abbrev chosen : Config (Option (List ℕ))
chosen = record {
  filesystem = some one_file;
  version = 1;
  remote_enabled = false;
  remote_port = 8080;
  remote_key = b'k' ∷ b'7' ∷ [];
  log_level = log_info;
  loaded_from_file = false;
  valid = true;
}

chosen-IsWellFormed : IsWellFormed chosen
chosen-IsWellFormed = (
  refl,
  (omega arith, omega arith),
  (
    omega arith,
    ((omega arith, omega arith, omega arith), ((omega arith, omega arith, omega arith), tt)),
  ),
  inl refl,
)

held :
    read_file (some one_file) (render chosen) config_path
    ≡ some (record { kind = text; contents = render chosen })
unfolding read_file
held = refl

load-render_example :
    (is_none (render chosen) ≡ false)
    × (load (init (some one_file)) (render chosen) ≡ (true, restored (init (some one_file)) chosen))
unfolding init
load-render_example =
    load-render (init (some one_file)) chosen (render chosen) (omega arith, omega arith)
      chosen-IsWellFormed.2 held

load-Loaded_example : Loaded (load chosen (some (b'x' ∷ [])))
load-Loaded_example = load-Loaded chosen (some (b'x' ∷ []))

set-Changed_example : Changed chosen (set chosen none (b'a' ∷ []) (b'b' ∷ []))
set-Changed_example = set-Changed chosen none (b'a' ∷ []) (b'b' ∷ []) chosen-IsWellFormed

one_file-IsDurable : IsDurable (some one_file)
unfolding read_file write_bytes
one_file-IsDurable disk output written = refl

set-IsStored_example : IsStored (set chosen none port_key (b'8' ∷ b'0' ∷ []))
set-IsStored_example =
    set-IsStored chosen none port_key (b'8' ∷ b'0' ∷ []) chosen-IsWellFormed one_file-IsDurable

set_remote_key-IsStored_example : IsStored (set_remote_key chosen none (b's' ∷ []))
set_remote_key-IsStored_example =
    set_remote_key-IsStored chosen none (b's' ∷ []) chosen-IsWellFormed one_file-IsDurable
