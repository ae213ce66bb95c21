-- ===== src/Stream/Ops.antt =====
-- `struct arwill_tcp_stream` and the functions of kernel/tcp_stream.c. The stream's pointer is not
-- null; a data pointer that may be null is an option.
use arwill.Prelude.{
  ℕ, zero, suc, ◌+◌, ◌-◌, ◌%◌, Bool, true, false, not, ◌&&◌, ◌||◌, if◌then◌else◌, ◌==◌, ltb, leb,
  u32, uint32_max, is_none, Option, none, some, List, [], ◌∷◌, set, get_or,
}
use arwill.Tcp.Types.{listen, is, Listener}
use arwill.Tcp.Machine
use arwill.Tcp.Machine.{connected}

abbrev pub receive_capacity : ℕ
receive_capacity = 512

abbrev pub transmit_capacity : ℕ
transmit_capacity = 8192

-- `struct arwill_tcp_stream`
pub record Stream : Type 0 where
  pub listener : Listener
  pub receive : List ℕ
  pub receive_head : ℕ
  pub receive_count : ℕ
  pub transmit : List ℕ
  pub transmit_head : ℕ
  pub transmit_count : ℕ
  pub listening : Bool
  pub peer_closed : Bool
  pub close_requested : Bool
  pub receive_window_changed : Bool
  pub connections : ℕ
  pub disconnects : ℕ
  pub bytes_received : ℕ
  pub bytes_sent : ℕ
  pub bytes_dropped : ℕ
  pub send_failures : ℕ

-- `arwill_tcp_stream_init`: the two arrays keep what they hold.
unfoldable pub init : Stream → Stream
unfolding Machine.init
init s = record {
  listener = Machine.init 0 0;
  receive = s.receive;
  receive_head = 0;
  receive_count = 0;
  transmit = s.transmit;
  transmit_head = 0;
  transmit_count = 0;
  listening = false;
  peer_closed = false;
  close_requested = false;
  receive_window_changed = false;
  connections = 0;
  disconnects = 0;
  bytes_received = 0;
  bytes_sent = 0;
  bytes_dropped = 0;
  send_failures = 0;
}

-- the fields that `arwill_tcp_stream_listen` and `arwill_tcp_stream_stop` both clear
abbrev pub cleared : Stream → Stream
cleared s = record s {
  receive_head = 0;
  receive_count = 0;
  transmit_head = 0;
  transmit_count = 0;
  peer_closed = false;
  close_requested = false;
  receive_window_changed = false;
}

-- `arwill_tcp_stream_listen`
unfoldable pub listen_on : Stream → ℕ → ℕ → Bool × Stream
unfolding Machine.init
listen_on s port initial_sequence = if port == 0 then (false, s) else (
  true,
  record (cleared s) { listener = Machine.init port initial_sequence; listening = true },
)

-- `arwill_tcp_stream_stop`
unfoldable pub stop : Stream → Stream
unfolding Machine.reset
stop s = record (cleared s) {
  bytes_dropped = u32 (s.bytes_dropped + u32 s.transmit_count);
  listening = false;
  listener = Machine.reset s.listener 0;
}

-- `arwill_tcp_stream_connected`
unfoldable pub stream_connected : Stream → Bool
unfolding connected
stream_connected s = s.listening && connected s.listener

-- `arwill_tcp_stream_connection_seen`
unfoldable pub connection_seen : Stream → Bool
connection_seen s = not (s.connections == 0)

-- `arwill_tcp_stream_close_complete`
unfoldable pub close_complete : Stream → Bool
close_complete s = s.listening && (is s.listener.state listen && not s.close_requested)

-- one round of the loop of `arwill_tcp_stream_read`
unfoldable pub pop_receive : Stream → Stream
pop_receive s = record s {
  receive_head = (s.receive_head + 1) % receive_capacity;
  receive_count = s.receive_count - 1;
}

-- That loop, on the bytes that still fit: what it copies, in order, and the stream that it leaves.
unfoldable pub read_loop : ℕ → Stream → List ℕ × Stream
read_loop zero s = ([], s)
read_loop (suc room) s =
    let rest = read_loop room (pop_receive s) in
    if not (s.receive_count == 0)
    then (get_or s.receive s.receive_head 0 ∷ rest.0, rest.1)
    else ([], s)

abbrev pub is_nil : List ℕ → Bool
is_nil [] = true
is_nil (_ ∷ _) = false

-- `arwill_tcp_stream_read` with a buffer of `capacity` bytes: the bytes copied into it (their number
-- is the result), and the stream.
unfoldable pub read : Stream → ℕ → List ℕ × Stream
read s capacity =
    let out = read_loop capacity s in
    if not (is_nil out.0) then (out.0, record (out.1) { receive_window_changed = true }) else out

-- one round of the loop of `arwill_tcp_stream_write`
unfoldable pub push_transmit : ℕ → Stream → Stream
push_transmit byte s =
    let tail = (s.transmit_head + s.transmit_count) % transmit_capacity in
    record s { transmit = set s.transmit tail byte; transmit_count = s.transmit_count + 1 }

-- That loop over the bytes left.
unfoldable pub write_loop : List ℕ → Stream → Stream
write_loop [] s = s
write_loop (byte ∷ rest) s = write_loop rest (push_transmit byte s)

abbrev pub bytes_of : Option (List ℕ) → List ℕ
bytes_of none = []
bytes_of (some bytes) = bytes

-- `arwill_tcp_stream_write`: `pointer` is the caller's array of `length` bytes, or null.
unfoldable pub write : Stream → Option (List ℕ) → ℕ → ℕ × Stream
write s pointer length =
    if not (stream_connected s)
      || (is_none pointer && not (length == 0) || ltb (transmit_capacity - s.transmit_count) length)
    then (
      0,
      if leb length uint32_max
          then record s { bytes_dropped = u32 (s.bytes_dropped + u32 length) }
          else s,
    )
    else (length, write_loop (bytes_of pointer) s)

-- `arwill_tcp_stream_close`
unfoldable pub close : Stream → Stream
unfolding stream_connected
close s = if stream_connected s then record s { close_requested = true } else s

-- One round of `enqueue_stream_receive` of kernel/ipv4.c.
unfoldable pub enqueue_byte : ℕ → Stream → Stream
enqueue_byte byte s =
    if leb receive_capacity s.receive_count
    then record s { bytes_dropped = u32 (s.bytes_dropped + 1) }
    else record s {
      receive = set s.receive ((s.receive_head + s.receive_count) % receive_capacity) byte;
      receive_count = s.receive_count + 1;
      bytes_received = u32 (s.bytes_received + 1);
    }

-- `enqueue_stream_receive`, which fills the receive buffer from a segment's payload.
unfoldable pub enqueue_receive : List ℕ → Stream → Stream
enqueue_receive [] s = s
enqueue_receive (byte ∷ rest) s = enqueue_receive rest (enqueue_byte byte s)
