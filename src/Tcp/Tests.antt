-- ===== src/Tcp/Tests.antt =====
-- Runs of kernel/tcp.c, and its theorems at concrete connections.
use arwill.Prelude.{false, ◌≡◌, refl, true, if◌then◌else◌, arith}
use arwill.Tcp.Types.{
  listen, established, time_wait, flag_ack, Address, Segment, Listener, same_address, zero_address,
}
use arwill.Tcp.Sequence.{sequence_after, sequence_before}
use arwill.Tcp.Machine.{
  init, connect, receive, receive_handshake, receive_data, receive_teardown, receive_closing,
  begin_close, matches, prepare_reply,
}
use arwill.Tcp.Graph.{Edge, receive-Edge}
use arwill.Tcp.Invariant.{IsValid, receive-IsValid}
use arwill.Tcp.Rejection.{IsOfConnection, receive-rejected, reset_reopens}
use arwill.Tcp.Handshake.{sent, AreSynced, handshake_opens}
use arwill.Tcp.Transfer.{segment_of, data_keeps_AreSynced, out_of_order}
use arwill.Tcp.Close.{orderly_close}

abbrev host : Address
host = record { b0 = 10; b1 = 0; b2 = 2; b3 = 2 }

abbrev guest : Address
guest = record { b0 = 10; b1 = 0; b2 = 2; b3 = 15 }

abbrev blank : Segment
blank = record {
  source_address = zero_address;
  destination_address = zero_address;
  source_port = 0;
  destination_port = 0;
  sequence = 0;
  acknowledgement = 0;
  flags = 0;
  window = 0;
  maximum_segment_size = 0;
  payload_length = 0;
}

-- the remote console's port, listening
abbrev console : Listener
console = record {
  port = 23232;
  peer_port = 0;
  local_address = zero_address;
  peer_address = zero_address;
  sequence = 7000;
  acknowledgement = 0;
  peer_window = 0;
  peer_maximum_segment_size = 536;
  state = listen;
}

abbrev syn : Segment
syn = record {
  source_address = host;
  destination_address = guest;
  source_port = 50000;
  destination_port = 23232;
  sequence = 900;
  acknowledgement = 0;
  flags = 2;
  window = 4096;
  maximum_segment_size = 1460;
  payload_length = 0;
}

-- both ends of an open connection; the host's number is about to wrap
abbrev at_host : Listener
at_host = record {
  port = 50000;
  peer_port = 23232;
  local_address = host;
  peer_address = guest;
  sequence = 0xffffffff;
  acknowledgement = 7001;
  peer_window = 512;
  peer_maximum_segment_size = 536;
  state = established;
}

abbrev at_guest : Listener
at_guest = record {
  port = 23232;
  peer_port = 50000;
  local_address = guest;
  peer_address = host;
  sequence = 7001;
  acknowledgement = 0xffffffff;
  peer_window = 4096;
  peer_maximum_segment_size = 1460;
  state = established;
}

open_pair : AreSynced at_host at_guest
open_pair = ground arith

-- A SYN to the console is answered by a SYN-ACK.
console_answers : (receive console syn blank).2.flags ≡ 18
unfolding receive receive_handshake matches prepare_reply
console_answers = refl

wrapped_order : sequence_before 0xfffffffe 3 ≡ true
unfolding sequence_before
wrapped_order = refl

handshake_opens_example :
    let (opening, a, s1) = connect at_host host 50000 guest 23232 900 blank in
    let (took1, b, s2) = receive (init 23232 7000) (sent 4096 1460 s1) blank in
    let (took2, a', s3) = receive a (sent 512 536 s2) blank in
    let (took3, b', s4) = receive b (sent 4096 0 s3) blank in
    (opening ≡ true)
    × (took1 ≡ true)
    × (took2 ≡ true)
    × (took3 ≡ true)
    × (a'.sequence ≡ 901)
    × (b'.sequence ≡ 7001)
    × (s4.flags ≡ 0)
    × AreSynced a' b'
handshake_opens_example =
    handshake_opens at_host host guest 50000 23232 900 7000 blank blank blank blank 4096 1460 512
      536 4096 0 (omega arith) (omega arith)

orderly_close_example :
    let (closing_a, a1, s1) = begin_close at_host blank in
    let (took1, b1, s2) = receive at_guest (sent 1 0 s1) blank in
    let (took2, a2, s3) = receive a1 (sent 2 0 s2) blank in
    let (closing_b, b2, s4) = begin_close b1 blank in
    let (took3, a3, s5) = receive a2 (sent 3 0 s4) blank in
    let (took4, b3, s6) = receive b2 (sent 4 0 s5) blank in
    (closing_a ≡ true)
    × (took1 ≡ true)
    × (took2 ≡ true)
    × (closing_b ≡ true)
    × (took3 ≡ true)
    × (took4 ≡ true)
    × (a3.state ≡ time_wait)
    × (a3.acknowledgement ≡ b2.sequence)
    × (b2.acknowledgement ≡ a3.sequence)
    × (b3 ≡ init 23232 b2.sequence)
orderly_close_example =
    orderly_close at_host at_guest blank blank blank blank blank blank 1 0 2 0 3 0 4 0 open_pair

data_keeps_AreSynced_example :
    let (took, b', reply) = receive at_guest (segment_of at_host 24 10 512 0) blank in
    (took ≡ true)
    × (reply.flags ≡ flag_ack)
    × (reply.acknowledgement ≡ 9)
    × AreSynced (record at_host { sequence = 9 }) b'
data_keeps_AreSynced_example =
    data_keeps_AreSynced at_host at_guest 24 10 512 0 blank open_pair refl refl refl (omega arith)
      (omega arith)

old_ack : sequence_after 3 at_guest.sequence ≡ false
unfolding sequence_after
old_ack = refl

out_of_order_example :
    let (took, b', reply) =
      receive at_guest
        (record (segment_of at_host 16 10 512 0) { sequence = 5; acknowledgement = 3 })
        blank in
    (took ≡ true)
    × (b' ≡ record at_guest { peer_window = 512 })
    × (reply.flags ≡ flag_ack)
    × (reply.acknowledgement ≡ at_guest.acknowledgement)
    × (reply.sequence ≡ at_guest.sequence)
out_of_order_example =
    out_of_order at_host at_guest 16 10 512 0 5 3 blank open_pair refl refl (omega arith) old_ack

receive-Edge_example : Edge 2 listen (receive console syn blank).1.state
receive-Edge_example = receive-Edge console syn blank

console-IsValid : IsValid console
console-IsValid = ground arith

receive-IsValid_example : IsValid (receive console syn blank).1
receive-IsValid_example = receive-IsValid console syn blank (omega arith) console-IsValid

-- an acknowledgement that the console's listening endpoint does not take
abbrev stray : Segment
stray = record syn { flags = 16 }

receive-rejected_example :
    (receive console stray blank).1
    ≡ record console { peer_window = if matches console stray then 4096 else 0 }
unfolding receive receive_handshake receive_data receive_teardown receive_closing matches
receive-rejected_example = receive-rejected console stray blank refl

-- a segment from another host's address
abbrev forged : Segment
forged = record (segment_of at_host 4 0 512 0) { source_address = zero_address }

forged_foreign : ¬ (IsOfConnection at_guest forged)
forged_foreign c = cc c.from_address

reset_reopens_example :
    let (took, fresh, reply) = receive at_guest (segment_of at_host 4 0 512 0) blank in
    let (opening, a, s1) = connect at_host host 50001 guest 23232 900 blank in
    let (took1, b', s2) = receive fresh (sent 4096 1460 s1) blank in
    let (took2, a', s3) = receive a (sent 512 536 s2) blank in
    let (took3, b'', s4) = receive b' (sent 4096 0 s3) blank in
    (took ≡ true)
    × (reply.flags ≡ 0)
    × (opening ≡ true)
    × (took1 ≡ true)
    × (took2 ≡ true)
    × (took3 ≡ true)
    × AreSynced a' b''
unfolding matches same_address
reset_reopens_example =
    reset_reopens at_guest (segment_of at_host 4 0 512 0) at_host host guest 50001 900 blank blank
      blank blank blank 4096 1460 512 536 4096 0 (λ e. cc) refl refl (omega arith) (omega arith)
