-- ===== src/Tcp.antt =====
-- kernel/tcp.c: one TCP endpoint as a state machine over received segments. A function that writes
-- `*listener` and `*reply` returns both beside its result; the caller's pointers are not null.
pub mod Types
pub mod Sequence
pub mod Machine
pub mod Graph
pub mod Invariant
pub mod Rejection
pub mod Handshake
pub mod Transfer
pub mod Close
mod Tests
