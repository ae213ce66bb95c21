-- ===== src/Tcp/Handshake.antt =====
-- The three-way handshake between two endpoints of kernel/tcp.c, step by step and as a whole.
-- Between an endpoint and its peer, kernel/ipv4.c writes a segment's window and segment size.
use arwill.Prelude.{ℕ, ◌+◌, ◌≡◌, ◌≢◌, refl, true, u32, arith}
use arwill.Tcp.Types.{syn_sent, syn_received, established, Address, Segment, Listener}
use arwill.Tcp.Machine.{
  receive_handshake, receive, matches, init, connect, prepare_reply, announced_size,
}

-- the segment as the peer gets it
abbrev pub sent : ℕ → ℕ → Segment → Segment
sent w m s = record s { window = w; maximum_segment_size = m }

-- each endpoint is the other's peer
pub record ArePeers (a b : Listener) : Type 0 where
  pub port_of_a : b.peer_port ≡ a.port
  pub port_of_b : a.peer_port ≡ b.port
  pub address_of_a : b.peer_address ≡ a.local_address
  pub address_of_b : a.peer_address ≡ b.local_address

-- both are open, and each expects the octet that the other sends next
pub record AreSynced (a b : Listener) : Type 0 where
  pub peers : ArePeers a b
  pub next_of_a : b.acknowledgement ≡ a.sequence
  pub next_of_b : a.acknowledgement ≡ b.sequence
  pub a_open : a.state ≡ established
  pub b_open : b.state ≡ established

module _ (ca sa : Address) (cp sp ci si : ℕ) where
  -- the client after `connect`, and its SYN
  abbrev connecting : Listener
  connecting = record {
    port = cp;
    peer_port = sp;
    local_address = ca;
    peer_address = sa;
    sequence = ci;
    acknowledgement = 0;
    peer_window = 0;
    peer_maximum_segment_size = 536;
    state = syn_sent;
  }

  abbrev syn : Segment
  syn = record {
    source_address = ca;
    destination_address = sa;
    source_port = cp;
    destination_port = sp;
    sequence = ci;
    acknowledgement = 0;
    flags = 2;
    window = 0;
    maximum_segment_size = 0;
    payload_length = 0;
  }

  -- the server after the SYN, which announced `m`, and its SYN-ACK
  abbrev answering : ℕ → ℕ → Listener
  answering w m = record {
    port = sp;
    peer_port = cp;
    local_address = sa;
    peer_address = ca;
    sequence = si;
    acknowledgement = u32 (ci + 1);
    peer_window = w;
    peer_maximum_segment_size = announced_size (init sp si) (sent w m syn);
    state = syn_received;
  }

  abbrev syn_ack : Segment
  syn_ack = record {
    source_address = sa;
    destination_address = ca;
    source_port = sp;
    destination_port = cp;
    sequence = si;
    acknowledgement = u32 (ci + 1);
    flags = 18;
    window = 0;
    maximum_segment_size = 0;
    payload_length = 0;
  }

  -- the client after the SYN-ACK, and its ACK
  abbrev opened : ℕ → ℕ → Listener
  opened w m = record {
    port = cp;
    peer_port = sp;
    local_address = ca;
    peer_address = sa;
    sequence = u32 (ci + 1);
    acknowledgement = u32 (si + 1);
    peer_window = w;
    peer_maximum_segment_size = announced_size connecting (sent w m syn_ack);
    state = established;
  }

  abbrev ack : Segment
  ack = record {
    source_address = ca;
    destination_address = sa;
    source_port = cp;
    destination_port = sp;
    sequence = u32 (ci + 1);
    acknowledgement = u32 (si + 1);
    flags = 16;
    window = 0;
    maximum_segment_size = 0;
    payload_length = 0;
  }

  connect_lem :
      (l : Listener) (r : Segment)
      → cp ≢ 0
      → sp ≢ 0
      → connect l ca cp sa sp ci r ≡ (true, connecting, syn)
  unfolding connect init
  connect_lem l r hc hs = ground arith

  receive-syn :
      (w m : ℕ) (r : Segment)
      → receive (init sp si) (sent w m syn) r ≡ (true, answering w m, syn_ack)
  unfolding receive receive_handshake matches prepare_reply init
  receive-syn w m r = ground arith

  receive-syn_ack :
      (w m : ℕ) (r : Segment) → receive connecting (sent w m syn_ack) r ≡ (true, opened w m, ack)
  unfolding receive receive_handshake matches prepare_reply
  receive-syn_ack w m r = ground arith

  -- The answer to the last segment carries no flag, and is not sent.
  receive-ack :
      (w m w' m' : ℕ) (r : Segment)
      → receive (answering w m) (sent w' m' ack) r ≡ (
        true,
        record (answering w m) { sequence = u32 (si + 1); peer_window = w'; state = established },
        prepare_reply ack,
      )
  unfolding receive receive_handshake matches prepare_reply
  receive-ack w m w' m' r = ground arith

-- A client that connects, from and to ports that are not 0, and the endpoint that listens there
-- take each segment of the handshake and end open and synchronised, each one past its initial
-- sequence number, whatever windows and segment sizes are announced; and the third segment is not
-- answered.
pub handshake_opens :
    (l : Listener) (ca sa : Address) (cp sp ci si : ℕ) (r0 r1 r2 r3 : Segment)
    → (w1 m1 w2 m2 w3 m3 : ℕ) → cp ≢ 0
    → sp ≢ 0
    → let (opening, a, s1) = connect l ca cp sa sp ci r0 in
      let (took1, b, s2) = receive (init sp si) (sent w1 m1 s1) r1 in
      let (took2, a', s3) = receive a (sent w2 m2 s2) r2 in
      let (took3, b', s4) = receive b (sent w3 m3 s3) r3 in
      (opening ≡ true)
      × (took1 ≡ true)
      × (took2 ≡ true)
      × (took3 ≡ true)
      × (a'.sequence ≡ u32 (ci + 1))
      × (b'.sequence ≡ u32 (si + 1))
      × (s4.flags ≡ 0)
      × AreSynced a' b'
unfolding prepare_reply
handshake_opens l ca sa cp sp ci si r0 r1 r2 r3 w1 m1 w2 m2 w3 m3 hc hs =
    rw
      (
        connect_lem ca sa cp sp ci si l r0 hc hs,
        receive-syn ca sa cp sp ci si w1 m1 r1,
        receive-syn_ack ca sa cp sp ci si w2 m2 r2,
        receive-ack ca sa cp sp ci si w1 m1 w3 m3 r3,
      )
      (refl, refl, refl, refl, refl, refl, refl, synced)
  where
    synced :
        AreSynced (opened ca sa cp sp ci si w2 m2) (record (answering ca sa cp sp ci si w1 m1) {
          sequence = u32 (si + 1);
          peer_window = w3;
          state = established;
        })
    synced = ground arith
