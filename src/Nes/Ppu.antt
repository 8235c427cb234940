-- ===== src/Nes/Ppu.antt =====
-- The registers and memories of the picture unit: ppu.c without the two drawing functions.
-- A `byte` argument or field is below 2 ^ 8 and a `word` below 2 ^ 16: stores cut to that width.
pub mod Bounds
pub mod Ports
use Prim.Native.Nat.{bit_and, bit_or, bit_xor}
use triathlon.Prelude.{
  ℕ, ◌+◌, ◌-◌, ◌*◌, ◌/◌, ◌%◌, ◌^◌, Bool, true, false, not, ◌&&◌, ◌||◌, ◌==◌, ltb, leb,
  if◌then◌else◌,
}
use triathlon.Prelude.Words.{u8, u16, ◌<<◌}
use triathlon.Prelude.Store.{Store, update}
use triathlon.Nes.State.{Ppu}
use triathlon.Nes.Common.{common_bit_set, common_modify_bitb}

-- `ppu_base_nametable_addresses[ppu.PPUCTRL & 0x3]`.
unfoldable pub ppu_base_nametable_address : Ppu → ℕ
ppu_base_nametable_address u =
    let i = bit_and u.ppuctrl 0x3 in
    if i == 0 then 0x2000 else if i == 1 then 0x2400 else if i == 2 then 0x2800 else 0x2c00

unfoldable pub ppu_vram_address_increment : Ppu → ℕ
ppu_vram_address_increment u = if common_bit_set u.ppuctrl 2 then 32 else 1

unfoldable pub ppu_sprite_pattern_table_address : Ppu → ℕ
ppu_sprite_pattern_table_address u = if common_bit_set u.ppuctrl 3 then 0x1000 else 0x0000

unfoldable pub ppu_background_pattern_table_address : Ppu → ℕ
ppu_background_pattern_table_address u = if common_bit_set u.ppuctrl 4 then 0x1000 else 0x0000

unfoldable pub ppu_sprite_height : Ppu → ℕ
ppu_sprite_height u = if common_bit_set u.ppuctrl 5 then 16 else 8

unfoldable pub ppu_generates_nmi : Ppu → Bool
ppu_generates_nmi u = common_bit_set u.ppuctrl 7

unfoldable pub ppu_shows_background_in_leftmost_8px : Ppu → Bool
ppu_shows_background_in_leftmost_8px u = common_bit_set u.ppumask 1

unfoldable pub ppu_shows_background : Ppu → Bool
ppu_shows_background u = common_bit_set u.ppumask 3

unfoldable pub ppu_shows_sprites : Ppu → Bool
ppu_shows_sprites u = common_bit_set u.ppumask 4

unfoldable pub ppu_in_vblank : Ppu → Bool
ppu_in_vblank u = common_bit_set u.ppustatus 7

unfoldable pub ppu_sprite_0_hit : Ppu → Bool
ppu_sprite_0_hit u = common_bit_set u.ppustatus 6

unfoldable pub ppu_set_sprite_overflow : Bool → Ppu → Ppu
ppu_set_sprite_overflow yesno u = record u { ppustatus = common_modify_bitb u.ppustatus 5 yesno }

unfoldable pub ppu_set_sprite_0_hit : Bool → Ppu → Ppu
ppu_set_sprite_0_hit yesno u = record u { ppustatus = common_modify_bitb u.ppustatus 6 yesno }

unfoldable pub ppu_set_in_vblank : Bool → Ppu → Ppu
ppu_set_in_vblank yesno u = record u { ppustatus = common_modify_bitb u.ppustatus 7 yesno }

-- The address is a folded one, in 0x3F00 to 0x3F1F.
unfoldable pub palette_entry : ℕ → ℕ
palette_entry address =
    if address == 0x3f10 || address == 0x3f14 || address == 0x3f18 || address == 0x3f1c
    then address - 0x10
    else address

-- The palette's mirrors at 0x3F10, 0x3F14, 0x3F18 and 0x3F1C stand for the entries 16 below.
unfoldable pub ppu_get_real_ram_address : ℕ → ℕ
ppu_get_real_ram_address address =
    if ltb address 0x2000
    then address
    else if ltb address 0x3f00
    then address
    else if ltb address 0x4000
    then palette_entry (bit_or 0x3f00 (bit_and address 0x1f))
    else 0xffff

unfoldable pub ppu_ram_read : Ppu → ℕ → ℕ
ppu_ram_read u address = u.ram (ppu_get_real_ram_address (u16 address))

unfoldable pub ppu_ram_write : ℕ → ℕ → Ppu → Ppu
ppu_ram_write address value u = record u {
  ram = update u.ram (ppu_get_real_ram_address (u16 address)) value;
}

-- `memcpy(&PPU_RAM[address], source, length)`; the source is read from its own index 0 on.
unfoldable pub ppu_copy : ℕ → Store → ℕ → Ppu → Ppu
ppu_copy address source length u = record u {
  ram = λ i.
      if leb address i
      then if ltb i (address + length) then source (i - address) else u.ram i
      else u.ram i;
}

-- Case 2 of `ppuio_read`: the status, whose two flags are then cleared.
unfoldable pub read_status : Ppu → ℕ × Ppu
read_status u = (
  u.ppustatus,
  record (ppu_set_sprite_0_hit false (ppu_set_in_vblank false u)) {
    scroll_received_x = false;
    ppuscroll = 0;
    addr_received_high_byte = false;
    latch = u.ppustatus;
    addr_latch = 0;
    first_read = true;
  },
)

-- Case 7 of `ppuio_read`: the byte at PPUADDR, which moves on but for the first read.
unfoldable pub read_data : Ppu → ℕ × Ppu
read_data u =
    let value = ppu_ram_read u u.ppuaddr in
    let latched = record u { latch = if ltb u.ppuaddr 0x3f00 then value else 0 } in
    (
      value,
      if u.first_read
          then record latched { first_read = false }
          else record latched { ppuaddr = u16 (u.ppuaddr + ppu_vram_address_increment u) },
    )

unfoldable pub ppuio_read : ℕ → Ppu → ℕ × Ppu
ppuio_read address u0 =
    let u = record u0 { ppuaddr = bit_and u0.ppuaddr 0x3fff } in
    let register = bit_and address 7 in
    if register == 2
    then read_status u
    else if register == 4
    then (u.sprram u.oamaddr, record u { latch = u.sprram u.oamaddr })
    else if register == 7
    then read_data u
    else (0xff, u)

unfoldable pub ppu_sprram_write : ℕ → Ppu → Ppu
ppu_sprram_write value u = record u {
  sprram = update u.sprram u.oamaddr value;
  oamaddr = u8 (u.oamaddr + 1);
}

-- Case 5 of `ppuio_write`: X and Y in turn.
unfoldable pub write_scroll : ℕ → Ppu → Ppu
write_scroll value u =
    if u.scroll_received_x
    then record u { ppuscroll_y = value; scroll_received_x = false }
    else record u { ppuscroll_x = value; scroll_received_x = true }

-- Case 6 of `ppuio_write`, past its guard: the high byte, then the low byte.
unfoldable pub write_addr : ℕ → Ppu → Ppu
write_addr value u =
    if u.addr_received_high_byte
    then record u {
      ppuaddr = u16 ((u.addr_latch << 8) + value);
      addr_received_high_byte = false;
      first_read = true;
    }
    else record u { addr_latch = value; addr_received_high_byte = true; first_read = true }

-- Case 7 of `ppuio_write`.
unfoldable pub write_data : ℕ → Ppu → Ppu
write_data value u =
    if ltb 0x1fff u.ppuaddr || ltb u.ppuaddr 0x4000
    then ppu_ram_write u.ppuaddr value (ppu_ram_write (bit_xor u.ppuaddr u.mirroring_xor) value u)
    else ppu_ram_write u.ppuaddr value u

-- The `switch` of `ppuio_write`. Case 4 does what `ppu_sprram_write` does.
unfoldable pub write_register : ℕ → ℕ → Ppu → Ppu
write_register register value u =
    if register == 0
    then if u.ready then record u { ppuctrl = value } else u
    else if register == 1
    then if u.ready then record u { ppumask = value } else u
    else if register == 3
    then record u { oamaddr = value }
    else if register == 4
    then ppu_sprram_write value u
    else if register == 5
    then write_scroll value u
    else if register == 6
    then write_addr value u
    else if register == 7
    then write_data value u
    else u

unfoldable pub ppuio_write : ℕ → ℕ → Ppu → Ppu
ppuio_write address value u0 =
    let register = bit_and address 7 in
    let u = record u0 { latch = value; ppuaddr = bit_and u0.ppuaddr 0x3fff } in
    if register == 6 && not u.ready
    then u
    else record (write_register register value u) { latch = value }

-- `ppu_init`. The two tables that it fills are `addition` and `addition_flip` of Nes/Ppu/Tables.
unfoldable pub ppu_init : Ppu → Ppu
ppu_init u = record u {
  ppuctrl = 0;
  ppumask = 0;
  ppustatus = bit_or 0 0xa0;
  oamaddr = 0;
  ppuscroll_x = 0;
  ppuscroll_y = 0;
  ppuaddr = 0;
  ppudata = 0;
  first_read = true;
}

unfoldable pub ppu_set_mirroring : ℕ → Ppu → Ppu
ppu_set_mirroring mirroring u = record u {
  mirroring = mirroring;
  mirroring_xor = 0x400 << mirroring;
}
