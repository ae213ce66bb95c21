-- ===== src/Stream.antt =====
-- kernel/tcp_stream.c: the byte stream that an application holds, with its two circular buffers.
pub mod Ops
pub mod Invariant
pub mod Queue
mod Tests
