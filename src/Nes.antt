-- ===== src/Nes.antt =====
-- litenes.
pub mod State
pub mod Common
pub mod Ppu
pub mod Psg
pub mod Mmc
pub mod Memory
pub mod Cpu
pub mod Addressing
pub mod Ops
pub mod Opcodes
pub mod Run
pub mod Screen
pub mod Scanline
pub mod Rom
mod Tests
