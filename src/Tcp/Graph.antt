-- ===== src/Tcp/Graph.antt =====
-- The state diagram that kernel/tcp.c implements, with the flag of the segment that each edge needs.
use arwill.Prelude.{ℕ, ◌≡◌, true, bit_and, has, arith}
use arwill.Tcp.Types.{
  State, listen, syn_sent, syn_received, established, close_wait, last_ack, fin_wait_1, fin_wait_2,
  closing, time_wait, flag_fin, flag_syn, flag_rst, flag_ack, Segment, Listener,
}
use arwill.Tcp.Machine.{
  receive_closing, receive_teardown, receive_in_order, receive_data, receive_handshake, receive,
  reset, init,
}

-- An endpoint may go from one state to the other on a segment with these flags.
pub data Edge (flags : ℕ) : State → State → Type 0 where
  stay : {s : State} → Edge flags s s
  syn_arrived : has flags flag_syn ≡ true → Edge flags listen syn_received
  connected : bit_and flags 18 ≡ 18 → Edge flags syn_sent established
  accepted : has flags flag_ack ≡ true → Edge flags syn_received established
  peer_finished : has flags flag_fin ≡ true → Edge flags established close_wait
  last_acked : has flags flag_ack ≡ true → Edge flags last_ack listen
  fin_acked : has flags flag_ack ≡ true → Edge flags fin_wait_1 fin_wait_2
  both_finished : has flags flag_fin ≡ true → Edge flags fin_wait_1 closing
  finished_acked :
      has flags flag_fin ≡ true → has flags flag_ack ≡ true → Edge flags fin_wait_1 time_wait
  finished : has flags flag_fin ≡ true → Edge flags fin_wait_2 time_wait
  closing_acked : has flags flag_ack ≡ true → Edge flags closing time_wait
  was_reset : {s : State} → has flags flag_rst ≡ true → Edge flags s listen

pub ruleset edges = (
  stay, syn_arrived, connected, accepted, peer_finished, last_acked, fin_acked, both_finished,
  finished_acked, finished, closing_acked, was_reset,
)

closing-Edge : (l : Listener) (s r : Segment) → Edge s.flags l.state (receive_closing l s r).1.state
unfolding receive_closing
closing-Edge l s r = grind (arith, edges)

teardown-Edge :
    (l : Listener) (s r : Segment) → Edge s.flags l.state (receive_teardown l s r).1.state
unfolding receive_teardown reset init
teardown-Edge l s r = grind (arith, edges, closing-Edge l s r)

in_order-Edge :
    (l : Listener) (s r : Segment)
    → l.state ≡ established
    → Edge s.flags l.state (receive_in_order l s r).1.state
unfolding receive_in_order
in_order-Edge l s r h = grind (arith, edges)

data-Edge : (l : Listener) (s r : Segment) → Edge s.flags l.state (receive_data l s r).1.state
unfolding receive_data
data-Edge l s r = grind (arith, edges, in_order-Edge, teardown-Edge)

handshake-Edge :
    (l : Listener) (s r : Segment) → Edge s.flags l.state (receive_handshake l s r).1.state
unfolding receive_handshake
handshake-Edge l s r = grind (arith, edges, data-Edge)

-- Whatever segment arrives, the state stays or follows an edge of the diagram whose flag the segment
-- carries.
pub receive-Edge : (l : Listener) (s r : Segment) → Edge s.flags l.state (receive l s r).1.state
unfolding receive reset init
receive-Edge l s r = grind (arith, edges, handshake-Edge)
