-- ===== src/Tcp/Invariant.antt =====
-- The well-formedness of a listener, which every operation of kernel/tcp.c keeps.
use arwill.Prelude.{ℕ, ◌^◌, ◌<◌, ◌≡◌, arith}
use arwill.Tcp.Types.{listen, zero_address, Address, Segment, Listener}
use arwill.Tcp.Machine.{
  receive_closing, receive_teardown, receive_in_order, receive_data, receive_handshake, receive,
  reset, init, connect, begin_close, prepare_reply,
}

-- Sequence numbers are 32-bit words, the peer's segment size is a positive 16-bit word, and a
-- listening endpoint has no peer.
pub record IsValid (l : Listener) : Type 0 where
  pub sequence_word : l.sequence < 2 ^ 32
  pub acknowledgement_word : l.acknowledgement < 2 ^ 32
  pub size_pos : 0 < l.peer_maximum_segment_size
  pub size_word : l.peer_maximum_segment_size < 2 ^ 16
  pub no_peer_port : l.state ≡ listen → l.peer_port ≡ 0
  pub no_peer : l.state ≡ listen → l.peer_address ≡ zero_address

pub init-IsValid : (port initial : ℕ) → initial < 2 ^ 32 → IsValid (init port initial)
unfolding init
init-IsValid port initial h = ground arith

closing-IsValid : (l : Listener) (s r : Segment) → IsValid l → IsValid (receive_closing l s r).1
unfolding receive_closing
closing-IsValid l s r v = ground arith

teardown-IsValid : (l : Listener) (s r : Segment) → IsValid l → IsValid (receive_teardown l s r).1
unfolding receive_teardown reset
teardown-IsValid l s r v =
    ground (arith, closing-IsValid l s r v, init-IsValid l.port l.sequence v.sequence_word)

in_order-IsValid : (l : Listener) (s r : Segment) → IsValid l → IsValid (receive_in_order l s r).1
unfolding receive_in_order
in_order-IsValid l s r v = ground arith

data-IsValid : (l : Listener) (s r : Segment) → IsValid l → IsValid (receive_data l s r).1
unfolding receive_data
data-IsValid l s r v = ground (arith, teardown-IsValid l s r v, in_order-IsValid l s r v)

handshake-IsValid :
    (l : Listener) (s r : Segment)
    → s.maximum_segment_size < 2 ^ 16
    → IsValid l
    → IsValid (receive_handshake l s r).1
unfolding receive_handshake
handshake-IsValid l s r w v = ground (arith, data-IsValid l s r v)

-- Whatever segment arrives, with a segment size that is a 16-bit word, the listener stays well-formed.
pub receive-IsValid :
    (l : Listener) (s r : Segment)
    → s.maximum_segment_size < 2 ^ 16
    → IsValid l
    → IsValid (receive l s r).1
unfolding receive reset
receive-IsValid l s r w v = ground (
  arith,
  handshake-IsValid (record l { peer_window = s.window }) s (prepare_reply s),
  init-IsValid l.port l.sequence v.sequence_word,
)

-- So do opening a connection and closing it.
pub connect-IsValid :
    (l : Listener) (local peer : Address) (local_port peer_port initial : ℕ) (syn : Segment)
    → initial < 2 ^ 32
    → IsValid l
    → IsValid (connect l local local_port peer peer_port initial syn).1
unfolding connect
connect-IsValid l local peer local_port peer_port initial syn h v = ground arith

pub begin_close-IsValid :
    (l : Listener) (before : Segment) → IsValid l → IsValid (begin_close l before).1
unfolding begin_close
begin_close-IsValid l before v = ground arith
