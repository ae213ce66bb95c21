-- ===== src/Config/Types.antt =====
-- The configuration of kernel/config.c, its defaults and its constants.
use arwill.Prelude.{
  ℕ, ◌≤◌, ◌<◌, ◌≡◌, ◌≢◌, ◌⊎◌, Bool, true, false, Option, List, [], ◌∷◌, All, length,
}
use arwill.Files.{Filesystem}

-- `enum arwill_config_log_level`
pub data LogLevel : Type 0 where
  log_info : LogLevel

-- `struct arwill_config`; the key is the text in the buffer.
pub record Config (F : Type 0) : Type 0 where
  pub filesystem : Option (Filesystem F)
  pub version : ℕ
  pub remote_enabled : Bool
  pub remote_port : ℕ
  pub remote_key : List ℕ
  pub log_level : LogLevel
  pub loaded_from_file : Bool
  pub valid : Bool

abbrev pub remote_key_capacity : ℕ
remote_key_capacity = 65

abbrev pub file_capacity : ℕ
file_capacity = 1024

abbrev pub output_capacity : ℕ
output_capacity = 256

abbrev pub seen_version : ℕ
seen_version = 1

abbrev pub seen_remote_enabled : ℕ
seen_remote_enabled = 2

abbrev pub seen_remote_port : ℕ
seen_remote_port = 4

abbrev pub seen_remote_key : ℕ
seen_remote_key = 8

abbrev pub seen_log_level : ℕ
seen_log_level = 16

abbrev pub seen_all : ℕ
seen_all = 31

-- "/owner/arwill.conf"
abbrev pub config_path : List ℕ
config_path =
    b'/' ∷ b'o' ∷ b'w' ∷ b'n' ∷ b'e' ∷ b'r' ∷ b'/' ∷ b'a' ∷ b'r' ∷ b'w' ∷ b'i' ∷ b'l' ∷ b'l' ∷ b'.'
    ∷ b'c' ∷ b'o' ∷ b'n' ∷ b'f' ∷ []

-- "config.version", "remote.enabled", "remote.port", "remote.key" and "log.level"
abbrev pub version_key : List ℕ
version_key =
    b'c' ∷ b'o' ∷ b'n' ∷ b'f' ∷ b'i' ∷ b'g' ∷ b'.' ∷ b'v' ∷ b'e' ∷ b'r' ∷ b's' ∷ b'i' ∷ b'o' ∷ b'n'
    ∷ []

abbrev pub enabled_key : List ℕ
enabled_key =
    b'r' ∷ b'e' ∷ b'm' ∷ b'o' ∷ b't' ∷ b'e' ∷ b'.' ∷ b'e' ∷ b'n' ∷ b'a' ∷ b'b' ∷ b'l' ∷ b'e' ∷ b'd'
    ∷ []

abbrev pub port_key : List ℕ
port_key = b'r' ∷ b'e' ∷ b'm' ∷ b'o' ∷ b't' ∷ b'e' ∷ b'.' ∷ b'p' ∷ b'o' ∷ b'r' ∷ b't' ∷ []

abbrev pub key_key : List ℕ
key_key = b'r' ∷ b'e' ∷ b'm' ∷ b'o' ∷ b't' ∷ b'e' ∷ b'.' ∷ b'k' ∷ b'e' ∷ b'y' ∷ []

abbrev pub log_level_key : List ℕ
log_level_key = b'l' ∷ b'o' ∷ b'g' ∷ b'.' ∷ b'l' ∷ b'e' ∷ b'v' ∷ b'e' ∷ b'l' ∷ []

-- "true", "false" and "info"
abbrev pub true_text : List ℕ
true_text = b't' ∷ b'r' ∷ b'u' ∷ b'e' ∷ []

abbrev pub false_text : List ℕ
false_text = b'f' ∷ b'a' ∷ b'l' ∷ b's' ∷ b'e' ∷ []

abbrev pub info_text : List ℕ
info_text = b'i' ∷ b'n' ∷ b'f' ∷ b'o' ∷ []

module _ {F : Type 0} where
  -- `set_defaults`
  unfoldable pub set_defaults : Config F → Config F
  set_defaults c = record c {
    version = 1;
    remote_enabled = true;
    remote_port = 23232;
    remote_key = [];
    log_level = log_info;
    loaded_from_file = false;
    valid = true;
  }

  -- `arwill_config_init`: every field of `*config` is written.
  unfoldable pub init : Option (Filesystem F) → Config F
  init filesystem = record {
    filesystem = filesystem;
    version = 1;
    remote_enabled = true;
    remote_port = 23232;
    remote_key = [];
    log_level = log_info;
    loaded_from_file = false;
    valid = true;
  }

  -- what `arwill_config_load` leaves when it refuses the file
  abbrev pub refused : Config F → Config F
  refused c = record (set_defaults c) {
    remote_enabled = false;
    loaded_from_file = true;
    valid = false;
  }

-- a byte that is printed, and is neither a space nor the sign that ends a key of the file
abbrev pub IsKeyByte : ℕ → Type 0
IsKeyByte c = (33 ≤ c) × (c ≤ 126) × (c ≢ b'=')

abbrev pub IsPort : ℕ → Type 0
IsPort port = (0 < port) × (port ≤ 65535)

abbrev pub IsKey : List ℕ → Type 0
IsKey key = (length key < remote_key_capacity) × All IsKeyByte key

-- A configuration of the first version, with a port that exists and a key that can be written down,
-- and with the remote service off unless it is valid.
abbrev pub IsWellFormed : {F : Type 0} → Config F → Type 0
IsWellFormed c =
    (c.version ≡ 1)
    × IsPort c.remote_port
    × IsKey c.remote_key
    × ((c.valid ≡ true) ⊎ (c.remote_enabled ≡ false))
