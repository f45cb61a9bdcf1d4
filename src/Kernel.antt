-- ===== src/Kernel.antt =====
-- The kernel: kernel/src.
pub mod Disk
pub mod Allocator
pub mod VgaBuffer
pub mod Shell
pub mod Keyboard
pub mod Scheduling
pub mod Graphics
