-- ===== src/Http.antt =====
-- libs/libhttp/http.c and include/arwill/user/http.h: the address that a program asks for, and the request
-- that it sends. A C text is the list of its bytes before the NUL.
pub mod Address
pub mod Request
pub mod Taken
pub mod Checked
pub mod Printed
pub mod Text
pub mod Sent
mod Tests
use arwill.Prelude.{ℕ, List}

-- `enum arwill_http_result`, with what a call that succeeds gives
pub data Result (A : Type 0) : Type 0 where
  ok : A → Result A
  invalid unsupported too_large : Result A

-- `enum arwill_http_method`
pub data Method : Type 0 where
  get post : Method

-- `enum arwill_http_scheme`
pub data Scheme : Type 0 where
  http https : Scheme

-- `arwill_http_host_capacity` and `arwill_http_path_capacity`
abbrev pub host_capacity : ℕ
host_capacity = 64

abbrev pub path_capacity : ℕ
path_capacity = 256

-- `struct arwill_http_url`
pub record Url : Type 0 where
  pub host : List ℕ
  pub path : List ℕ
  pub port : ℕ
  pub scheme : Scheme

abbrev pub default_port : Scheme → ℕ
default_port http = 80
default_port https = 443
