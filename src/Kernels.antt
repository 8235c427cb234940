-- ===== src/Kernels.antt =====
-- Programs of am-kernels/kernels.
pub mod Threads
pub mod Yields
pub mod Snake
pub mod Ant
pub mod Life
pub mod Hanoi
mod Tests
