-- ===== src/Dns.antt =====
-- libs/libnet/dns.c and include/arwill/user/dns.h: the query for the address of a host and the parser of
-- what is answered. A message is the list of its bytes, each below 256, so that a mask of the top bits of a
-- byte or a word is a comparison, and one of the low bits a remainder.
pub mod Query
pub mod Response
pub mod Names
pub mod Records
pub mod Answer
mod Tests
use arwill.Prelude.{ℕ, ◌+◌, ◌*◌, ◌/◌, ◌%◌, List, [], ◌∷◌, get_or}

-- `enum arwill_dns_result`, with what a call that succeeds gives
pub data Result (A : Type 0) : Type 0 where
  ok : A → Result A
  invalid too_large not_found server_failure : Result A

-- `read_u16`
unfoldable pub read_u16 : List ℕ → ℕ → ℕ
read_u16 bytes offset = get_or bytes offset 0 * 256 + get_or bytes (offset + 1) 0

-- the bytes that `write_u16` stores
abbrev pub u16_bytes : ℕ → List ℕ
u16_bytes value = value / 256 ∷ value % 256 ∷ []
