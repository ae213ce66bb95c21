-- ===== src/Config.antt =====
-- kernel/config.c: the configuration, and its file on the owner's part of the disk.
pub mod Types
pub mod Parse
pub mod Store
pub mod Values
pub mod Safety
pub mod Update
pub mod Output
pub mod Lines
pub mod Roundtrip
pub mod Durable
mod Tests
