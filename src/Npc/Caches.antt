-- ===== src/Npc/Caches.antt =====
-- The models behind the caches, and one clock cycle of the test bench, of memory_models.h.
pub mod Signals
pub mod Icache
pub mod Dcache
pub mod System
pub mod Fifo
pub mod Quiet
mod Tests
