-- ===== src/Tcp/Transfer.antt =====
-- Data and the closing of a connection between two synchronised endpoints of kernel/tcp.c.
use arwill.Prelude.{ℕ, ◌+◌, ◌≤◌, ◌<◌, ◌≡◌, ◌≢◌, sym, ◌∙◌, true, false, u32, uint32_max, has, arith}
use arwill.Tcp.Types.{
  established, index, same_address, flag_fin, flag_rst, flag_ack, Segment, Listener,
}
use arwill.Tcp.Sequence.{sequence_after}
use arwill.Tcp.Machine.{
  receive_teardown, receive_in_order, receive_data, receive_handshake, receive, matches,
  prepare_reply,
}
use arwill.Tcp.Handshake.{ArePeers, AreSynced}

-- a segment of `n` octets that `a` sends its peer, with the flags `f`
abbrev pub segment_of : Listener → ℕ → ℕ → ℕ → ℕ → Segment
segment_of a f n w m = record {
  source_address = a.local_address;
  destination_address = a.peer_address;
  source_port = a.port;
  destination_port = a.peer_port;
  sequence = a.sequence;
  acknowledgement = a.acknowledgement;
  flags = f;
  window = w;
  maximum_segment_size = m;
  payload_length = n;
}

pub matches-of_peer :
    (a b : Listener) (f n w m : ℕ) → ArePeers a b → matches b (segment_of a f n w m) ≡ true
unfolding matches same_address
matches-of_peer a b f n w m p =
    rw (p.port_of_a, p.port_of_b, p.address_of_a, p.address_of_b) (ground arith)

-- A matching segment without the reset flag goes to the phase that the state is in.
pub past_reset :
    (l : Listener) (s r : Segment)
    → matches l s ≡ true
    → has s.flags flag_rst ≡ false
    → receive l s r ≡ receive_handshake (record l { peer_window = s.window }) s (prepare_reply s)
unfolding receive
past_reset l s r m f = rw (m, f)

pub past_handshake :
    (l : Listener) (s r : Segment)
    → 3 ≤ index l.state
    → receive_handshake l s r ≡ receive_data l s r
unfolding receive_handshake
past_handshake l s r h = ground arith

pub past_data :
    (l : Listener) (s r : Segment) → 5 ≤ index l.state → receive_data l s r ≡ receive_teardown l s r
unfolding receive_data
past_data l s r h = ground arith

not_after_self : (x : ℕ) → sequence_after x x ≡ false
unfolding sequence_after
not_after_self x = ground arith

-- the next segment expected, which acknowledges all that was sent
to_in_order :
    (l : Listener) (s r : Segment)
    → l.state ≡ established
    → s.source_port ≡ l.peer_port
    → has s.flags flag_ack ≡ true
    → s.acknowledgement ≡ l.sequence
    → s.sequence ≡ l.acknowledgement
    → receive_data l s r ≡ receive_in_order l s r
unfolding receive_data
to_in_order l s r e p f a q = ground (arith, not_after_self l.sequence)

-- A segment of a synchronised peer that carries ACK and not RST is handled as the next one.
pub receive-of_synced :
    (a b : Listener) (f n w m : ℕ) (r : Segment)
    → AreSynced a b
    → has f flag_rst ≡ false
    → has f flag_ack ≡ true
    → let s = segment_of a f n w m in
      receive b s r ≡ receive_in_order (record b { peer_window = w }) s (prepare_reply s)
receive-of_synced a b f n w m r h no_rst is_ack =
    let s = segment_of a f n w m in
    let b' = record b { peer_window = w } in
    past_reset b s r (matches-of_peer a b f n w m h.peers) no_rst
    ∙ past_handshake b' s (prepare_reply s) (rw h.b_open (omega arith))
    ∙ to_in_order b' s (prepare_reply s) h.b_open (sym h.peers.port_of_a) is_ack h.next_of_b
        (sym h.next_of_a)

-- A segment that a synchronised peer sends with the flag ACK and neither RST nor FIN, of 1 to
-- 2^32 - 1 octets, is taken and acknowledged, and the endpoints are synchronised again once the sender
-- has counted its octets.
pub data_keeps_AreSynced :
    (a b : Listener) (f n w m : ℕ) (r : Segment)
    → AreSynced a b
    → has f flag_rst ≡ false
    → has f flag_fin ≡ false
    → has f flag_ack ≡ true
    → 0 < n
    → n ≤ uint32_max
    → let (took, b', reply) = receive b (segment_of a f n w m) r in
      (took ≡ true)
      × (reply.flags ≡ flag_ack)
      × (reply.acknowledgement ≡ u32 (a.sequence + n))
      × AreSynced (record a { sequence = u32 (a.sequence + n) }) b'
unfolding receive_in_order prepare_reply
data_keeps_AreSynced a b f n w m r h no_rst no_fin is_ack pos small =
    rw (receive-of_synced a b f n w m r h no_rst is_ack) (ground arith)

-- Between synchronised endpoints, a segment with the flag ACK and without RST whose sequence number is
-- not the next one expected, as a repeated or an early one, and which acknowledges nothing that was not
-- sent, is answered with the number that is expected, and changes nothing but the peer's window.
pub out_of_order :
    (a b : Listener) (f n w m q k : ℕ) (r : Segment)
    → AreSynced a b
    → has f flag_rst ≡ false
    → has f flag_ack ≡ true
    → q ≢ a.sequence
    → sequence_after k b.sequence ≡ false
    → let (took, b', reply) =
        receive b (record (segment_of a f n w m) { sequence = q; acknowledgement = k }) r in
      (took ≡ true)
      × (b' ≡ record b { peer_window = w })
      × (reply.flags ≡ flag_ack)
      × (reply.acknowledgement ≡ b.acknowledgement)
      × (reply.sequence ≡ b.sequence)
unfolding receive_data prepare_reply matches
out_of_order a b f n w m q k r h no_rst is_ack ne old =
    let s = record (segment_of a f n w m) { sequence = q; acknowledgement = k } in
    let b' = record b { peer_window = w } in
    rw
      (
        past_reset b s r (matches-of_peer a b f n w m h.peers) no_rst,
        past_handshake b' s (prepare_reply s) (rw h.b_open (omega arith)),
      )
      (ground (arith, not_after_self b.sequence))
