-- ===== src/Npc/Virtio.antt =====
-- The virtio block device of memory_models.h.
pub mod Ring
pub mod Request
pub mod Device
pub mod Frames
pub mod Served
pub mod Drains
pub mod Reads
pub mod Writes
pub mod Registers
mod Tests
