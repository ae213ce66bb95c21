-- ===== src/Stream/Tests.antt =====
-- The stream's theorems at concrete streams.
use arwill.Prelude.{
  ℕ, ◌≡◌, refl, ◌-◌, true, false, if◌then◌else◌, ◌&&◌, leb, some, [], ◌∷◌, ◌++◌, length, take, drop,
  replicate, arith,
}
use arwill.Tcp.Types.{zero_address, established, Listener}
use arwill.Stream.Ops.{
  Stream, transmit_capacity, read, read_loop, write, enqueue_receive, pop_receive, stream_connected,
}
use arwill.Stream.Invariant.{IsValid}
use arwill.Stream.Queue.{received, pending, read_lem, write_lem, enqueue_receive_lem}

abbrev open_listener : Listener
open_listener = record {
  port = 23232;
  peer_port = 50000;
  local_address = zero_address;
  peer_address = zero_address;
  sequence = 1;
  acknowledgement = 1;
  peer_window = 512;
  peer_maximum_segment_size = 536;
  state = established;
}

-- an open stream with two bytes received, the second round the end of the array
abbrev wrapped : Stream
wrapped = record {
  listener = open_listener;
  receive = 9 ∷ replicate 510 0 ++ 8 ∷ [];
  receive_head = 511;
  receive_count = 2;
  transmit = replicate 8192 0;
  transmit_head = 8191;
  transmit_count = 0;
  listening = true;
  peer_closed = false;
  close_requested = false;
  receive_window_changed = false;
  connections = 1;
  disconnects = 0;
  bytes_received = 2;
  bytes_sent = 0;
  bytes_dropped = 0;
  send_failures = 0;
}

transmit_size : length (replicate {A = ℕ} 8192 0) ≡ 8192
transmit_size = refl

wrapped-IsValid : IsValid wrapped
wrapped-IsValid = record {
  receive_size = refl;
  receive_head_in = omega arith;
  receive_count_in = omega arith;
  transmit_size = transmit_size;
  transmit_head_in = omega arith;
  transmit_count_in = omega arith;
}

received-wrapped : received wrapped ≡ 8 ∷ 9 ∷ []
received-wrapped = refl

read-wrapped : (read wrapped 5).0 ≡ 8 ∷ 9 ∷ []
unfolding read read_loop pop_receive
read-wrapped = refl

read_lem_example :
    let (bytes, s') = read wrapped 1 in
    (bytes ≡ take 1 (received wrapped)) × (received s' ≡ drop 1 (received wrapped))
read_lem_example = read_lem wrapped 1 wrapped-IsValid

enqueue_receive_lem_example :
    received (enqueue_receive (1 ∷ 2 ∷ []) wrapped) ≡ received wrapped ++ take 510 (1 ∷ 2 ∷ [])
enqueue_receive_lem_example = enqueue_receive_lem (1 ∷ 2 ∷ []) wrapped wrapped-IsValid

write_lem_example :
    let (count, s') = write wrapped (some (4 ∷ 5 ∷ [])) 2 in
    let accepted = stream_connected wrapped && leb 2 (transmit_capacity - 0) in
    (count ≡ (if accepted then 2 else 0))
    × (pending s' ≡ (if accepted then pending wrapped ++ 4 ∷ 5 ∷ [] else pending wrapped))
write_lem_example = write_lem wrapped (4 ∷ 5 ∷ []) wrapped-IsValid
