-- ===== src/Kernel/Allocator.antt =====
-- kernel/src/allocator: the heap allocators.
pub mod Layout
pub mod Frames
pub mod Bump
pub mod FixedSize
mod Tests
