-- ===== src/Tcp/Close.antt =====
-- The orderly close of a connection between two synchronised endpoints of kernel/tcp.c.
use arwill.Prelude.{ℕ, ◌+◌, ◌≤◌, ◌≡◌, refl, ap, ◌∙◌, true, false, u32, has, arith}
use arwill.Tcp.Types.{
  close_wait, last_ack, fin_wait_1, fin_wait_2, time_wait, index, flag_rst, Segment, Listener,
}
use arwill.Tcp.Machine.{
  receive_closing, receive_teardown, receive_in_order, receive, reset, init, begin_close,
  prepare_reply, acknowledgement_covers,
}
use arwill.Tcp.Handshake.{sent, ArePeers, AreSynced}
use arwill.Tcp.Transfer.{
  segment_of, matches-of_peer, past_reset, past_handshake, past_data, receive-of_synced,
}

covers_self : (l : Listener) (n : ℕ) → n ≡ l.sequence → acknowledgement_covers l n ≡ true
unfolding acknowledgement_covers
covers_self l n e = ground arith

-- Once the endpoint closes, a peer's segment without the reset flag goes to the last phases.
to_teardown :
    (a b : Listener) (f n w m : ℕ) (r : Segment)
    → ArePeers a b
    → 5 ≤ index b.state
    → has f flag_rst ≡ false
    → let s = segment_of a f n w m in
      receive b s r ≡ receive_teardown (record b { peer_window = w }) s (prepare_reply s)
to_teardown a b f n w m r p h no_rst =
    let s = segment_of a f n w m in
    let b' = record b { peer_window = w } in
    let r' = prepare_reply s in
    past_reset b s r (matches-of_peer a b f n w m p) no_rst
    ∙ past_handshake b' s r' (omega arith)
    ∙ past_data b' s r' h

module _ (a b : Listener) (h : AreSynced a b) where
  -- the endpoints after each segment of the close, `a` being first
  abbrev a_closing : Listener
  a_closing = record a { sequence = u32 (a.sequence + 1); state = fin_wait_1 }

  abbrev b_told : ℕ → Listener
  b_told w = record b {
    peer_window = w;
    acknowledgement = u32 (b.acknowledgement + 1);
    state = close_wait;
  }

  abbrev a_half : ℕ → Listener
  a_half w = record a_closing { peer_window = w; state = fin_wait_2 }

  abbrev b_closing : ℕ → Listener
  b_closing w = record (b_told w) { sequence = u32 (b.sequence + 1); state = last_ack }

  abbrev a_done : ℕ → Listener
  a_done w = record a_closing {
    peer_window = w;
    acknowledgement = u32 (a.acknowledgement + 1);
    state = time_wait;
  }

  close_a : (r : Segment) → begin_close a r ≡ (true, a_closing, segment_of a 17 0 0 0)
  unfolding begin_close
  close_a r = rw h.a_open refl

  tell_b :
      (w m : ℕ) (r : Segment)
      → receive b (segment_of a 17 0 w m) r ≡ (true, b_told w, segment_of (b_told w) 16 0 0 0)
  unfolding receive_in_order prepare_reply
  tell_b w m r = rw (receive-of_synced a b 17 0 w m r h refl refl) (ground arith)

  acked_a :
      (w1 w m : ℕ) (r : Segment)
      → let s = segment_of (b_told w1) 16 0 w m in
        receive a_closing s r ≡ (true, a_half w, prepare_reply s)
  unfolding receive_teardown
  acked_a w1 w m r =
      to_teardown (b_told w1) a_closing 16 0 w m r (ground arith) (omega arith) refl
      ∙ ground (
        arith,
        covers_self (record a_closing { peer_window = w }) (u32 (b.acknowledgement + 1))
            (ap (λ k. u32 (k + 1)) h.next_of_a),
      )

  close_b :
      (w : ℕ) (r : Segment)
      → begin_close (b_told w) r ≡ (true, b_closing w, segment_of (b_told w) 17 0 0 0)
  unfolding begin_close
  close_b w r = refl

  end_a :
      (w1 w2 w m : ℕ) (r : Segment)
      → receive (a_half w1) (segment_of (b_told w2) 17 0 w m) r
        ≡ (true, a_done w, segment_of (a_done w) 16 0 0 0)
  unfolding receive_teardown receive_closing prepare_reply
  end_a w1 w2 w m r =
      to_teardown (b_told w2) (a_half w1) 17 0 w m r (ground arith) (omega arith) refl
      ∙ ground arith

  end_b :
      (w1 w2 w m : ℕ) (r : Segment)
      → let s = segment_of (a_done w2) 16 0 w m in
        receive (b_closing w1) s r ≡ (true, init b.port (u32 (b.sequence + 1)), prepare_reply s)
  unfolding receive_teardown reset
  end_b w1 w2 w m r =
      to_teardown (a_done w2) (b_closing w1) 16 0 w m r (ground arith) (omega arith) refl
      ∙ ground (
        arith,
        covers_self (record (b_closing w1) { peer_window = w }) (u32 (a.acknowledgement + 1))
            (ap (λ k. u32 (k + 1)) h.next_of_b),
      )

-- From a synchronised connection, both sides' closes complete by four segments, whatever windows and
-- segment sizes they carry: each is taken, the side that closed first ends in TIME-WAIT with every
-- sequence number acknowledged, and the other listens again on its port with no peer.
pub orderly_close :
    (a b : Listener) (r1 r2 r3 r4 r5 r6 : Segment) (w1 m1 w2 m2 w3 m3 w4 m4 : ℕ)
    → AreSynced a b
    → let (closing_a, a1, s1) = begin_close a r1 in
      let (took1, b1, s2) = receive b (sent w1 m1 s1) r2 in
      let (took2, a2, s3) = receive a1 (sent w2 m2 s2) r3 in
      let (closing_b, b2, s4) = begin_close b1 r4 in
      let (took3, a3, s5) = receive a2 (sent w3 m3 s4) r5 in
      let (took4, b3, s6) = receive b2 (sent w4 m4 s5) r6 in
      (closing_a ≡ true)
      × (took1 ≡ true)
      × (took2 ≡ true)
      × (closing_b ≡ true)
      × (took3 ≡ true)
      × (took4 ≡ true)
      × (a3.state ≡ time_wait)
      × (a3.acknowledgement ≡ b2.sequence)
      × (b2.acknowledgement ≡ a3.sequence)
      × (b3 ≡ init b.port b2.sequence)
orderly_close a b r1 r2 r3 r4 r5 r6 w1 m1 w2 m2 w3 m3 w4 m4 h =
    rw
      (
        close_a a b h r1,
        tell_b a b h w1 m1 r2,
        acked_a a b h w1 w2 m2 r3,
        close_b a b h w1 r4,
        end_a a b h w2 w1 w3 m3 r5,
        end_b a b h w1 w3 w4 m4 r6,
      )
      (
        refl,
        refl,
        refl,
        refl,
        refl,
        refl,
        refl,
        ap (λ k. u32 (k + 1)) h.next_of_b,
        ap (λ k. u32 (k + 1)) h.next_of_a,
        refl,
      )
