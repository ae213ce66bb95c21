-- ===== src/Log.antt =====
-- kernel/log.c: the volatile event log, a circular array that overwrites its oldest entry.
pub mod Ops
pub mod History
mod Tests
