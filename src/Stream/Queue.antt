-- ===== src/Stream/Queue.antt =====
-- A stream's two circular buffers against two bounded queues of bytes.
use arwill.Prelude.{
  ℕ, zero, suc, ◌+◌, ◌-◌, ◌%◌, ◌≤◌, ◌<◌, ◌≡◌, ◌≢◌, refl, sym, ap, ◌∙◌, if◌then◌else◌, ◌&&◌, leb,
  some, List, [], ◌∷◌, ◌++◌, length, take, drop, get_or, u32, arith,
}
use native.Mathlib.Decide.{dec_lt}
use mathlib.Core.List.{append-nil, append_assoc}
use arwill.Prelude.Ring.{window, window-push, window-pop}
use arwill.Stream.Ops.{
  Stream, receive_capacity, transmit_capacity, read_loop, read, write_loop, write, stream_connected,
  enqueue_byte, enqueue_receive, pop_receive, push_transmit,
}
use arwill.Stream.Invariant.{
  IsValid, transmit_count-push_transmit, pop_receive-IsValid, push_transmit-IsValid,
  enqueue_byte-IsValid,
}

-- the bytes that the application can read, oldest first
abbrev pub received : Stream → List ℕ
received s = window 0 s.receive receive_capacity s.receive_head s.receive_count

-- the bytes that wait to be sent, oldest first
abbrev pub pending : Stream → List ℕ
pending s = window 0 s.transmit transmit_capacity s.transmit_head s.transmit_count

-- Of a queue `q` that has room for `room` more, what a payload makes.
abbrev pub fill : ℕ → List ℕ → List ℕ → List ℕ
fill size q payload = q ++ take (size - length q) payload

take-nil : (n : ℕ) → take {A = ℕ} n [] ≡ []
take-nil zero = refl
take-nil (suc n) = refl

received-pop_receive :
    (s : Stream)
    → IsValid s
    → s.receive_count ≢ 0
    → received s ≡ get_or s.receive s.receive_head 0 ∷ received (pop_receive s)
unfolding pop_receive
received-pop_receive s v ne =
    window-pop 0 s.receive receive_capacity s.receive_head s.receive_count v.receive_head_in ne

received_none : (s : Stream) → s.receive_count ≡ 0 → received s ≡ []
received_none s e = rw e refl

read_loop_lem :
    (room : ℕ) (s : Stream)
    → IsValid s
    → ((read_loop room s).0 ≡ take room (received s))
      × (received (read_loop room s).1 ≡ drop room (received s))
unfolding read_loop
read_loop_lem zero s v = (refl, refl)
read_loop_lem (suc room) s v = ground (
  arith,
  received_none s,
  received-pop_receive s v,
  pop_receive-IsValid s,
  read_loop_lem room (pop_receive s),
)

-- A read hands over the oldest bytes, in order and as many as are held and fit, and leaves the others
-- in order.
pub read_lem :
    (s : Stream) (capacity : ℕ)
    → IsValid s
    → let (bytes, s') = read s capacity in
      (bytes ≡ take capacity (received s)) × (received s' ≡ drop capacity (received s))
unfolding read
read_lem s capacity v = ground (arith, read_loop_lem capacity s v)

received-enqueue_byte :
    (byte : ℕ) (s : Stream)
    → IsValid s
    → s.receive_count < receive_capacity
    → received (enqueue_byte byte s) ≡ received s ++ byte ∷ []
unfolding enqueue_byte
received-enqueue_byte byte s v lt =
    let tail = (s.receive_head + s.receive_count) % receive_capacity in
    ground (
      arith,
      window-push 0 s.receive receive_capacity s.receive_head s.receive_count tail byte refl lt,
    )

enqueue_byte_full :
    (byte : ℕ) (s : Stream)
    → s.receive_count ≡ receive_capacity
    → enqueue_byte byte s ≡ record s { bytes_dropped = u32 (s.bytes_dropped + 1) }
unfolding enqueue_byte
enqueue_byte_full byte s e = ground arith

receive_count-enqueue_byte :
    (byte : ℕ) (s : Stream)
    → s.receive_count < receive_capacity
    → (enqueue_byte byte s).receive_count ≡ s.receive_count + 1
unfolding enqueue_byte
receive_count-enqueue_byte byte s lt = ground arith

take-cons_pos : (n : ℕ) (x : ℕ) (xs : List ℕ) → 0 < n → take n (x ∷ xs) ≡ x ∷ take (n - 1) xs
take-cons_pos zero x xs h = absurd (omega arith)
take-cons_pos (suc n) x xs h = ap (λ k. x ∷ take k xs) (omega arith)

-- A payload is appended to what can be read, in order, up to the capacity of the buffer; what is
-- beyond it is left out.
pub enqueue_receive_lem :
    (payload : List ℕ) (s : Stream)
    → IsValid s
    → received (enqueue_receive payload s)
      ≡ received s ++ take (receive_capacity - s.receive_count) payload
unfolding enqueue_receive
enqueue_receive_lem [] s v = rw (take-nil, append-nil)
enqueue_receive_lem (byte ∷ rest) s v = elim (dec_lt s.receive_count receive_capacity) [
  | yes lt ↦
      rw
        (
          enqueue_receive_lem rest (enqueue_byte byte s) (enqueue_byte-IsValid byte s v),
          received-enqueue_byte byte s v lt,
          receive_count-enqueue_byte byte s lt,
          append_assoc,
          take-cons_pos (receive_capacity - s.receive_count) byte rest (omega arith),
        )
        (ap (λ k. received s ++ byte ∷ take k rest) (omega arith))
  | no ge ↦
      let e : s.receive_count ≡ receive_capacity = omega arith in
      let none_left : receive_capacity - s.receive_count ≡ 0 = omega arith in
      rw (
        enqueue_receive_lem rest (enqueue_byte byte s) (enqueue_byte-IsValid byte s v),
        enqueue_byte_full byte s e,
        none_left,
      )
]

pending-push_transmit :
    (byte : ℕ) (s : Stream)
    → IsValid s
    → s.transmit_count < transmit_capacity
    → pending (push_transmit byte s) ≡ pending s ++ byte ∷ []
unfolding push_transmit
pending-push_transmit byte s v lt =
    let tail = (s.transmit_head + s.transmit_count) % transmit_capacity in
    ground (
      arith,
      window-push 0 s.transmit transmit_capacity s.transmit_head s.transmit_count tail byte refl lt,
    )

pending-write_loop :
    (bytes : List ℕ) (s : Stream)
    → IsValid s
    → s.transmit_count + length bytes ≤ transmit_capacity
    → pending (write_loop bytes s) ≡ pending s ++ bytes
unfolding write_loop
pending-write_loop [] s v fits = sym (append-nil (pending s))
pending-write_loop (byte ∷ rest) s v fits =
    pending-write_loop rest (push_transmit byte s) (push_transmit-IsValid byte s (omega arith) v)
      (omega (arith, transmit_count-push_transmit byte s))
    ∙ rw (pending-push_transmit byte s v (omega arith), append_assoc) refl

-- A write of an array of `n` bytes queues all of them behind what waits to be sent, and returns their
-- number, where the stream is connected and has room for them; otherwise it queues none and returns 0.
pub write_lem :
    (s : Stream) (bytes : List ℕ)
    → IsValid s
    → let n = length bytes in
      let (count, s') = write s (some bytes) n in
      let accepted = stream_connected s && leb n (transmit_capacity - s.transmit_count) in
      (count ≡ (if accepted then n else 0))
      × (pending s' ≡ (if accepted then pending s ++ bytes else pending s))
unfolding write
write_lem s bytes v = ground (arith, pending-write_loop bytes s v)
