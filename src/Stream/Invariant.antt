-- ===== src/Stream/Invariant.antt =====
-- The well-formedness of a stream's buffers, which every operation keeps.
use arwill.Prelude.{
  ℕ, ◌≤◌, ◌<◌, ◌≡◌, ◌≢◌, refl, List, [], ◌∷◌, Option, length, zero, suc, ◌+◌, ◌%◌, arith,
}
use arwill.Prelude.Lists.{length-set}
use arwill.Stream.Ops.{
  Stream, receive_capacity, transmit_capacity, init, listen_on, stop, read_loop, read, write_loop,
  write, close, enqueue_receive, enqueue_byte, bytes_of, pop_receive, push_transmit,
}

pub record IsValid (s : Stream) : Type 0 where
  pub receive_size : length s.receive ≡ receive_capacity
  pub receive_head_in : s.receive_head < receive_capacity
  pub receive_count_in : s.receive_count ≤ receive_capacity
  pub transmit_size : length s.transmit ≡ transmit_capacity
  pub transmit_head_in : s.transmit_head < transmit_capacity
  pub transmit_count_in : s.transmit_count ≤ transmit_capacity

pub pop_receive-IsValid : (s : Stream) → s.receive_count ≢ 0 → IsValid s → IsValid (pop_receive s)
unfolding pop_receive
pop_receive-IsValid s ne v = ground arith

read_loop-IsValid : (room : ℕ) (s : Stream) → IsValid s → IsValid (read_loop room s).1
unfolding read_loop
read_loop-IsValid zero s v = v
read_loop-IsValid (suc room) s v =
    ground (arith, pop_receive-IsValid s, read_loop-IsValid room (pop_receive s))

pub push_transmit-IsValid :
    (byte : ℕ) (s : Stream)
    → s.transmit_count < transmit_capacity
    → IsValid s
    → IsValid (push_transmit byte s)
unfolding push_transmit
push_transmit-IsValid byte s lt v =
    let tail = (s.transmit_head + s.transmit_count) % transmit_capacity in
    ground (arith, length-set s.transmit tail byte)

pub transmit_count-push_transmit :
    (byte : ℕ) (s : Stream) → (push_transmit byte s).transmit_count ≡ s.transmit_count + 1
unfolding push_transmit
transmit_count-push_transmit byte s = refl

write_loop-IsValid :
    (bytes : List ℕ) (s : Stream)
    → s.transmit_count + length bytes ≤ transmit_capacity
    → IsValid s
    → IsValid (write_loop bytes s)
unfolding write_loop
write_loop-IsValid [] s fits v = v
write_loop-IsValid (byte ∷ rest) s fits v =
    write_loop-IsValid rest (push_transmit byte s)
      (omega (arith, transmit_count-push_transmit byte s))
      (push_transmit-IsValid byte s (omega arith) v)

-- A read keeps the buffers well-formed, whatever the capacity of the caller's buffer.
pub read-IsValid : (s : Stream) (capacity : ℕ) → IsValid s → IsValid (read s capacity).1
unfolding read
read-IsValid s capacity v = ground (arith, read_loop-IsValid capacity s v)

pub enqueue_byte-IsValid : (byte : ℕ) (s : Stream) → IsValid s → IsValid (enqueue_byte byte s)
unfolding enqueue_byte
enqueue_byte-IsValid byte s v =
    let tail = (s.receive_head + s.receive_count) % receive_capacity in
    ground (arith, length-set s.receive tail byte)

-- A payload keeps them well-formed, whatever its length.
pub enqueue_receive-IsValid :
    (payload : List ℕ) (s : Stream) → IsValid s → IsValid (enqueue_receive payload s)
unfolding enqueue_receive
enqueue_receive-IsValid [] s v = v
enqueue_receive-IsValid (byte ∷ rest) s v =
    enqueue_receive-IsValid rest (enqueue_byte byte s) (enqueue_byte-IsValid byte s v)

-- A write from an array that is no longer than the length named (a null pointer has none) keeps a
-- stream well-formed.
pub write-IsValid :
    (s : Stream) (pointer : Option (List ℕ)) (n : ℕ)
    → length (bytes_of pointer) ≤ n
    → IsValid s
    → IsValid (write s pointer n).1
unfolding write
write-IsValid s pointer n fits v = ground (arith, write_loop-IsValid (bytes_of pointer) s)

-- Starting to listen, stopping and closing keep them well-formed.
pub init-IsValid : (s : Stream) → IsValid s → IsValid (init s)
unfolding init
init-IsValid s v = ground arith

pub listen_on-IsValid : (s : Stream) (port n : ℕ) → IsValid s → IsValid (listen_on s port n).1
unfolding listen_on
listen_on-IsValid s port n v = ground arith

pub stop-IsValid : (s : Stream) → IsValid s → IsValid (stop s)
unfolding stop
stop-IsValid s v = ground arith

pub close-IsValid : (s : Stream) → IsValid s → IsValid (close s)
unfolding close
close-IsValid s v = ground arith
