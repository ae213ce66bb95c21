-- ===== src/Arfs.antt =====
-- kernel/arfs.c: the mutable file system. The array of entries is the list of those in use, and a C
-- text is the list of its bytes before the NUL.
pub mod Types
pub mod Paths
pub mod Sectors
pub mod Manifest
pub mod Ops
pub mod Entries
pub mod Placement
pub mod Keeps
pub mod Steps
pub mod Found
pub mod Contents
pub mod Cases
pub mod Stored
pub mod ReadBack
pub mod Written
pub mod WriteRead
pub mod Parse
pub mod Lines
pub mod FileLine
pub mod Roundtrip
pub mod Mount
pub mod Storage
pub mod Capacity
pub mod Below
pub mod Listing
pub mod Reparse
pub mod Remount
mod Tests
