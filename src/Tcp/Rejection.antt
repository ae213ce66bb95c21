-- ===== src/Tcp/Rejection.antt =====
-- What kernel/tcp.c does with segments that are not the connection's, or that it does not take.
use arwill.Prelude.{ℕ, refl, ◌≡◌, ◌≢◌, inl, inr, Bool-cases, true, false, if◌then◌else◌, has, arith}
use arwill.Tcp.Types.{listen, flag_rst, Address, Segment, Listener}
use arwill.Tcp.Handshake.{sent, AreSynced, handshake_opens}
use arwill.Tcp.Machine.{
  receive_closing, receive_teardown, receive_in_order, receive_data, receive_handshake, receive,
  matches, reset, init, prepare_reply, connect,
}

closing-rejected :
    (l : Listener) (s r : Segment)
    → (receive_closing l s r).0 ≡ false
    → receive_closing l s r ≡ (false, l, r)
unfolding receive_closing
closing-rejected l s r h = ground arith

teardown-rejected :
    (l : Listener) (s r : Segment)
    → (receive_teardown l s r).0 ≡ false
    → receive_teardown l s r ≡ (false, l, r)
unfolding receive_teardown
teardown-rejected l s r h = ground (arith, closing-rejected l s r)

in_order-rejected :
    (l : Listener) (s r : Segment)
    → (receive_in_order l s r).0 ≡ false
    → receive_in_order l s r ≡ (false, l, r)
unfolding receive_in_order
in_order-rejected l s r h = ground arith

data-rejected :
    (l : Listener) (s r : Segment)
    → (receive_data l s r).0 ≡ false
    → receive_data l s r ≡ (false, l, r)
unfolding receive_data
data-rejected l s r h = ground (arith, teardown-rejected l s r, in_order-rejected l s r)

handshake-rejected :
    (l : Listener) (s r : Segment)
    → (receive_handshake l s r).0 ≡ false
    → receive_handshake l s r ≡ (false, l, r)
unfolding receive_handshake
handshake-rejected l s r h = ground (arith, data-rejected l s r)

-- A segment that is not taken changes nothing of the listener, but that the peer's window is noted
-- where the segment matches the listener.
pub receive-rejected :
    (l : Listener) (s r : Segment)
    → (receive l s r).0 ≡ false
    → (receive l s r).1 ≡ record l { peer_window = if matches l s then s.window else l.peer_window }
unfolding receive
receive-rejected l s r h =
    ground (arith, handshake-rejected (record l { peer_window = s.window }) s (prepare_reply s))

-- the segment carries the two addresses and the two ports of the connection
pub record IsOfConnection (l : Listener) (s : Segment) : Type 0 where
  pub to_port : s.destination_port ≡ l.port
  pub from_port : s.source_port ≡ l.peer_port
  pub to_address : s.destination_address ≡ l.local_address
  pub from_address : s.source_address ≡ l.peer_address

matches-IsOfConnection :
    (l : Listener) (s : Segment) → l.state ≢ listen → matches l s ≡ true → IsOfConnection l s
unfolding matches
matches-IsOfConnection l s live m = ground arith

-- Once it has a peer, a listener is left exactly as it is, and no reply is written, by every segment
-- whose addresses and ports are not the connection's.
pub receive-foreign :
    (l : Listener) (s r : Segment)
    → l.state ≢ listen
    → ¬ (IsOfConnection l s)
    → receive l s r ≡ (false, l, r)
unfolding receive
receive-foreign l s r live foreign = elim (Bool-cases (matches l s)) [
  | inl m ↦ absurd (foreign (matches-IsOfConnection l s live m))
  | inr m ↦ rw m
]

-- A matching segment with the reset flag makes a listener that is not listening as it was when it was made.
pub receive-reset :
    (l : Listener) (s r : Segment)
    → l.state ≢ listen
    → matches l s ≡ true
    → has s.flags flag_rst ≡ true
    → receive l s r ≡ (true, init l.port l.sequence, prepare_reply s)
unfolding receive reset
receive-reset l s r live m rst = ground arith

-- An endpoint on a port that is not 0 and in any state but LISTEN takes a matching segment with the flag
-- RST, whatever its payload, its sequence number and its other flags are, and answers it with no flag;
-- and a client that then connects to the port, from a port that is not 0, completes the
-- handshake with it and is synchronised with it, whoever was the peer before.
pub reset_reopens :
    (b : Listener) (s : Segment) (l : Listener) (ca sa : Address) (cp ci : ℕ)
    (r r0 r1 r2 r3 : Segment)
    → (w1 m1 w2 m2 w3 m3 : ℕ) → b.state ≢ listen
    → matches b s ≡ true
    → has s.flags flag_rst ≡ true
    → cp ≢ 0
    → b.port ≢ 0
    → let (took, fresh, reply) = receive b s r in
      let (opening, a, s1) = connect l ca cp sa b.port ci r0 in
      let (took1, b', s2) = receive fresh (sent w1 m1 s1) r1 in
      let (took2, a', s3) = receive a (sent w2 m2 s2) r2 in
      let (took3, b'', s4) = receive b' (sent w3 m3 s3) r3 in
      (took ≡ true)
      × (reply.flags ≡ 0)
      × (opening ≡ true)
      × (took1 ≡ true)
      × (took2 ≡ true)
      × (took3 ≡ true)
      × AreSynced a' b''
unfolding prepare_reply
reset_reopens b s l ca sa cp ci r r0 r1 r2 r3 w1 m1 w2 m2 w3 m3 live m rst hc hs =
    let (opening, took1, took2, took3, _, _, _, synced) =
      handshake_opens l ca sa cp b.port ci b.sequence r0 r1 r2 r3 w1 m1 w2 m2 w3 m3 hc hs in
    rw (receive-reset b s r live m rst) (refl, refl, opening, took1, took2, took3, synced)
