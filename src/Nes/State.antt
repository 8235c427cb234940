-- ===== src/Nes/State.antt =====
-- The variables of am-kernels/kernels/litenes/src that the emulator keeps between calls.
use triathlon.Prelude.{ℕ, Bool}
use triathlon.Prelude.Store.{Store}

-- `CPU_STATE` of cpu-internal.h.
pub record Cpu : Type 0 where
  pub pc : ℕ
  pub sp : ℕ
  pub a : ℕ
  pub x : ℕ
  pub y : ℕ
  pub p : ℕ

-- `PPU_STATE` of ppu.h, then the statics of ppu.c that its registers use.
pub record Ppu : Type 0 where
  pub ppuctrl : ℕ
  pub ppumask : ℕ
  pub ppustatus : ℕ
  pub oamaddr : ℕ
  pub oamdata : ℕ
  pub ppuscroll : ℕ
  pub ppuscroll_x : ℕ
  pub ppuscroll_y : ℕ
  pub ppuaddr : ℕ
  pub ppudata : ℕ
  pub scroll_received_x : Bool
  pub addr_received_high_byte : Bool
  pub ready : Bool
  pub mirroring : ℕ
  pub mirroring_xor : ℕ
  pub scanline : ℕ
  pub first_read : Bool
  pub addr_latch : ℕ
  pub latch : ℕ
  pub sprite_hit_occured : Bool
  pub sprram : Store
  pub ram : Store

-- The statics of psg.c; `prev_write` is the one of `psgio_write`.
pub record Psg : Type 0 where
  pub p : ℕ
  pub key_state : Store
  pub prev_write : ℕ

-- The variables of mmc.c; `chr_pages` is the two-dimensional array laid out flat.
pub record Mmc : Type 0 where
  pub id : ℕ
  pub chr_pages : Store
  pub chr_pages_number : ℕ
  pub memory : Store

-- All of it, with the globals of cpu.c.
pub record Machine : Type 0 where
  pub cpu : Cpu
  pub cpu_ram : Store
  pub op_code : ℕ
  pub op_value : ℕ
  pub op_address : ℕ
  pub op_cycles : ℕ
  pub cpu_cycles : ℕ
  pub ppu : Ppu
  pub psg : Psg
  pub mmc : Mmc
