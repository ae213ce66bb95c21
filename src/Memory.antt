-- ===== src/Memory.antt =====
-- kernel/memory.c: the allocator of physical pages and the kernel heap.
pub mod Words
pub mod Pages
pub mod Heap
mod Tests
