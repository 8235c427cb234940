-- ===== src/Npc.antt =====
-- The test bench of the processor core, src/npc/csrc: its memory, its devices and its boot code.
pub mod State
pub mod Plic
pub mod Clint
pub mod Uart
pub mod Phys
pub mod Virtio
pub mod Bus
pub mod Boot
pub mod Difftest
pub mod Stages
pub mod Profiler
pub mod Caches
pub mod Trap
mod Tests
