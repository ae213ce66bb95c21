-- ===== src/Tcp/Types.antt =====
-- The data of kernel/tcp.c: states, flags, segments and the listener (include/arwill/kernel/tcp.h).
use arwill.Prelude.{ℕ, Bool, ◌==◌, ◌&&◌}

-- `enum arwill_tcp_state`
pub data State : Type 0 where
  listen syn_sent syn_received established close_wait last_ack : State
  fin_wait_1 fin_wait_2 closing time_wait : State

-- the value of the enumerator, by which C compares states
abbrev pub index : State → ℕ
index listen = 0
index syn_sent = 1
index syn_received = 2
index established = 3
index close_wait = 4
index last_ack = 5
index fin_wait_1 = 6
index fin_wait_2 = 7
index closing = 8
index time_wait = 9

abbrev pub is : State → State → Bool
is s t = index s == index t

abbrev pub flag_fin : ℕ
flag_fin = 1

abbrev pub flag_syn : ℕ
flag_syn = 2

abbrev pub flag_rst : ℕ
flag_rst = 4

abbrev pub flag_psh : ℕ
flag_psh = 8

abbrev pub flag_ack : ℕ
flag_ack = 16

-- `uint8_t[4]`
pub record Address : Type 0 where
  pub b0 : ℕ
  pub b1 : ℕ
  pub b2 : ℕ
  pub b3 : ℕ

abbrev pub zero_address : Address
zero_address = record { b0 = 0; b1 = 0; b2 = 0; b3 = 0 }

-- the four rounds of the loop in `same_address`
unfoldable pub same_address : Address → Address → Bool
same_address l r = l.b0 == r.b0 && (l.b1 == r.b1 && (l.b2 == r.b2 && l.b3 == r.b3))

-- `struct arwill_tcp_segment`
pub record Segment : Type 0 where
  pub source_address : Address
  pub destination_address : Address
  pub source_port : ℕ
  pub destination_port : ℕ
  pub sequence : ℕ
  pub acknowledgement : ℕ
  pub flags : ℕ
  pub window : ℕ
  pub maximum_segment_size : ℕ
  pub payload_length : ℕ

-- `struct arwill_tcp_listener`
pub record Listener : Type 0 where
  pub port : ℕ
  pub peer_port : ℕ
  pub local_address : Address
  pub peer_address : Address
  pub sequence : ℕ
  pub acknowledgement : ℕ
  pub peer_window : ℕ
  pub peer_maximum_segment_size : ℕ
  pub state : State
