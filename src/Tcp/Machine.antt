-- ===== src/Tcp/Machine.antt =====
-- The operations of kernel/tcp.c on a listener. `receive` is one chain of tests in the source; here it
-- is cut into the connection's phases, each handing what it does not take to the next.
use arwill.Prelude.{
  ℕ, ◌+◌, Bool, true, false, not, ◌&&◌, ◌||◌, if◌then◌else◌, ◌==◌, ltb, u32, u64, uint32_max, has,
  bit_and, bit_or,
}
use arwill.Tcp.Types.{
  listen, syn_sent, syn_received, established, close_wait, last_ack, fin_wait_1, fin_wait_2,
  closing, time_wait, is, flag_fin, flag_syn, flag_rst, flag_ack, Address, zero_address,
  same_address, Segment, Listener,
}
use arwill.Tcp.Sequence.{sequence_before, sequence_after}

-- `prepare_reply`: every field of `*reply` is written.
unfoldable pub prepare_reply : Segment → Segment
prepare_reply incoming = record {
  source_address = incoming.destination_address;
  destination_address = incoming.source_address;
  source_port = incoming.destination_port;
  destination_port = incoming.source_port;
  sequence = 0;
  acknowledgement = 0;
  flags = 0;
  window = 0;
  maximum_segment_size = 0;
  payload_length = 0;
}

-- `arwill_tcp_listener_init`: every field of `*listener` is written.
unfoldable pub init : ℕ → ℕ → Listener
init port initial_sequence = record {
  port = port;
  peer_port = 0;
  local_address = zero_address;
  peer_address = zero_address;
  sequence = initial_sequence;
  acknowledgement = 0;
  peer_window = 0;
  peer_maximum_segment_size = 536;
  state = listen;
}

-- `arwill_tcp_listener_connected`
unfoldable pub connected : Listener → Bool
connected l = is l.state established || is l.state close_wait

-- `arwill_tcp_listener_matches`
unfoldable pub matches : Listener → Segment → Bool
unfolding same_address
matches l s =
    if not (s.destination_port == l.port)
    then false
    else if is l.state listen
    then true
    else s.source_port == l.peer_port
      && (same_address s.destination_address l.local_address
          && same_address s.source_address l.peer_address)

-- `acknowledgement_covers`
unfoldable pub acknowledgement_covers : Listener → ℕ → Bool
unfolding sequence_after sequence_before
acknowledgement_covers l a = a == l.sequence || sequence_after a l.sequence

-- `arwill_tcp_listener_reset`
unfoldable pub reset : Listener → ℕ → Listener
unfolding init
reset l initial_sequence = init l.port initial_sequence

-- the result of an operation, with `*listener` and `*reply` as it leaves them
abbrev pub Outcome : Type 0
Outcome = Bool × Listener × Segment

-- `arwill_tcp_listener_connect`
unfoldable pub connect : Listener → Address → ℕ → Address → ℕ → ℕ → Segment → Outcome
unfolding init
connect l local local_port peer peer_port initial_sequence syn =
    if local_port == 0 || peer_port == 0 then (false, l, syn) else (
      true,
      record (init local_port initial_sequence) {
        local_address = local;
        peer_address = peer;
        peer_port = peer_port;
        state = syn_sent;
      },
      record {
        source_address = local;
        destination_address = peer;
        source_port = local_port;
        destination_port = peer_port;
        sequence = initial_sequence;
        acknowledgement = 0;
        flags = flag_syn;
        window = 0;
        maximum_segment_size = 0;
        payload_length = 0;
      },
    )

-- the reply with the listener's numbers and the flags `f`
abbrev pub answer : Listener → ℕ → Segment → Segment
answer l f reply = record reply {
  sequence = l.sequence;
  acknowledgement = l.acknowledgement;
  flags = f;
}

abbrev pub announced_size : Listener → Segment → ℕ
announced_size l s =
    if not (s.maximum_segment_size == 0)
    then s.maximum_segment_size
    else l.peer_maximum_segment_size

-- The last tests of `arwill_tcp_listener_receive`: FIN-WAIT-2, CLOSING and TIME-WAIT.
unfoldable pub receive_closing : Listener → Segment → Segment → Outcome
receive_closing l s reply =
    if is l.state fin_wait_2 && (has s.flags flag_fin && s.sequence == l.acknowledgement)
    then (let l' = record l { acknowledgement = u32 (l.acknowledgement + 1); state = time_wait } in
        (true, l', answer l' flag_ack reply))
    else if is l.state closing
        && (has s.flags flag_ack && acknowledgement_covers l s.acknowledgement)
    then (true, record l { state = time_wait }, reply)
    else if is l.state time_wait && has s.flags flag_fin
    then (true, l, answer l flag_ack reply)
    else (false, l, reply)

-- Its tests for LAST-ACK and FIN-WAIT-1.
unfoldable pub receive_teardown : Listener → Segment → Segment → Outcome
receive_teardown l s reply =
    let acknowledged = has s.flags flag_ack && acknowledgement_covers l s.acknowledgement in
    let finished = has s.flags flag_fin && s.sequence == l.acknowledgement in
    if is l.state last_ack && acknowledged
    then (true, reset l l.sequence, reply)
    else if is l.state fin_wait_1 && finished
    then (let l' = record l {
      acknowledgement = u32 (l.acknowledgement + 1);
      state = if acknowledged then time_wait else closing;
    } in
        (true, l', answer l' flag_ack reply))
    else if is l.state fin_wait_1 && acknowledged
    then (true, record l { state = fin_wait_2 }, reply)
    else receive_closing l s reply

-- the octets of sequence space that a segment takes up, a `size_t`
abbrev pub consumed : Segment → ℕ
consumed s = if has s.flags flag_fin then u64 (s.payload_length + 1) else s.payload_length

-- An acceptable segment of an established connection that is the next one expected.
unfoldable pub receive_in_order : Listener → Segment → Segment → Outcome
receive_in_order l s reply =
    if ltb uint32_max (consumed s)
    then (false, l, reply)
    else let l' = record l {
      acknowledgement =
          if not (consumed s == 0)
          then u32 (l.acknowledgement + u32 (consumed s))
          else l.acknowledgement;
      state = if has s.flags flag_fin then close_wait else l.state;
    } in
      (true, l', if not (consumed s == 0) then answer l' flag_ack reply else reply)

-- Its tests for ESTABLISHED and CLOSE-WAIT.
unfoldable pub receive_data : Listener → Segment → Segment → Outcome
receive_data l s reply =
    let acceptable = has s.flags flag_ack && not (sequence_after s.acknowledgement l.sequence) in
    if is l.state established && (s.source_port == l.peer_port && acceptable)
    then (if s.sequence == l.acknowledgement
        then receive_in_order l s reply
        else (true, l, answer l flag_ack reply))
    else if is l.state close_wait && acceptable
    then (true, l, reply)
    else receive_teardown l s reply

-- Its tests for SYN-SENT, LISTEN and SYN-RECEIVED.
unfoldable pub receive_handshake : Listener → Segment → Segment → Outcome
receive_handshake l s reply =
    let syn_ack = bit_or flag_syn flag_ack in
    if is l.state syn_sent
      && (bit_and s.flags syn_ack == syn_ack && s.acknowledgement == u32 (l.sequence + 1))
    then (let l' = record l {
      sequence = u32 (l.sequence + 1);
      acknowledgement = u32 (s.sequence + 1);
      peer_window = s.window;
      peer_maximum_segment_size = announced_size l s;
      state = established;
    } in
        (true, l', answer l' flag_ack reply))
    else if is l.state listen && has s.flags flag_syn
    then (let l' = record l {
      local_address = s.destination_address;
      peer_address = s.source_address;
      peer_port = s.source_port;
      peer_maximum_segment_size = announced_size l s;
      acknowledgement = u32 (s.sequence + 1);
      state = syn_received;
    } in
        (true, l', answer l' syn_ack reply))
    else if is l.state syn_received
        && (s.source_port == l.peer_port
            && (has s.flags flag_syn && u32 (s.sequence + 1) == l.acknowledgement))
    then (true, l, answer l syn_ack reply)
    else if is l.state syn_received
        && (s.source_port == l.peer_port
            && (has s.flags flag_ack && s.acknowledgement == u32 (l.sequence + 1)))
    then (true, record l { sequence = u32 (l.sequence + 1); state = established }, reply)
    else receive_data l s reply

-- `arwill_tcp_listener_receive`; the last argument is what `*reply` holds before the call.
unfoldable pub receive : Listener → Segment → Segment → Outcome
receive l s before =
    if not (matches l s)
    then (false, l, before)
    else let reply = prepare_reply s in
      let l' = record l { peer_window = s.window } in
      if has s.flags flag_rst
      then (if not (is l'.state listen)
          then (true, reset l' l'.sequence, reply)
          else (false, l', reply))
      else receive_handshake l' s reply

-- `arwill_tcp_listener_begin_close`
unfoldable pub begin_close : Listener → Segment → Outcome
begin_close l before =
    if not (is l.state established) && not (is l.state close_wait) then (false, l, before) else (
      true,
      record l {
        sequence = u32 (l.sequence + 1);
        state = if is l.state close_wait then last_ack else fin_wait_1;
      },
      record {
        source_address = l.local_address;
        destination_address = l.peer_address;
        source_port = l.port;
        destination_port = l.peer_port;
        sequence = l.sequence;
        acknowledgement = l.acknowledgement;
        flags = bit_or flag_fin flag_ack;
        window = 0;
        maximum_segment_size = 0;
        payload_length = 0;
      },
    )
