-- ===== src/Nes/Memory.antt =====
-- The processor's address space: memory.c, with its RAM and its stack from cpu.c.
-- A `word` argument is cut to 16 bits by the callee, as C converts it.
pub mod Ram
pub mod Stack
pub mod Frame
pub mod Dma
use Prim.Native.Nat.{bit_and}
use triathlon.Prelude.{ℕ, zero, suc, ◌+◌, ◌-◌, ◌*◌, ◌/◌, ◌%◌, ◌^◌, Bool, ◌==◌, if◌then◌else◌}
use triathlon.Prelude.Words.{u8, u16, ◌<<◌, ◌>>◌}
use triathlon.Prelude.Store.{Store, update}
use triathlon.Nes.State.{Machine, Cpu, Ppu}
use triathlon.Nes.Ppu.{ppuio_read, ppuio_write, ppu_sprram_write}
use triathlon.Nes.Psg.{psgio_read, psgio_write}
use triathlon.Nes.Mmc.{mmc_read, mmc_write}

unfoldable pub cpu_ram_read : ℕ → Machine → ℕ
cpu_ram_read address s = s.cpu_ram (bit_and (u16 address) 0x7ff)

unfoldable pub cpu_ram_write : ℕ → ℕ → Machine → Machine
cpu_ram_write address value s = record s {
  cpu_ram = update s.cpu_ram (bit_and (u16 address) 0x7ff) (u8 value);
}

-- The `switch` on `address >> 13` of `memory_readb`, with the word in hand.
unfoldable pub read_region : ℕ → ℕ → Machine → ℕ × Machine
read_region region address s =
    if region == 0
    then (cpu_ram_read (bit_and address 0x7ff) s, s)
    else if region == 1
    then (let (v, u) = ppuio_read address s.ppu in (v, record s { ppu = u }))
    else if region == 2
    then (let (v, g) = psgio_read address s.psg in (v, record s { psg = g }))
    else if region == 3
    then (cpu_ram_read (bit_and address 0x1fff) s, s)
    else (mmc_read address s.mmc, s)

unfoldable pub memory_readb : ℕ → Machine → ℕ × Machine
memory_readb address s = read_region (u16 address >> 13) (u16 address) s

-- Bytes `i` on of a DMA transfer, `n` of them.
unfoldable pub dma_from : ℕ → ℕ → ℕ → Machine → Machine
dma_from page i zero s = s
dma_from page i (suc n) s =
    dma_from page (i + 1) n
      (record s { ppu = ppu_sprram_write (cpu_ram_read (0x100 * page + i) s) s.ppu })

unfoldable pub write_region : ℕ → ℕ → ℕ → Machine → Machine
write_region region address value s =
    if region == 0
    then cpu_ram_write (bit_and address 0x7ff) value s
    else if region == 1
    then record s { ppu = ppuio_write address value s.ppu }
    else if region == 2
    then record s { psg = psgio_write address value s.psg }
    else if region == 3
    then cpu_ram_write (bit_and address 0x1fff) value s
    else let (m, u) = mmc_write address value s.mmc s.ppu in record s { mmc = m; ppu = u }

unfoldable pub memory_writeb : ℕ → ℕ → Machine → Machine
memory_writeb address value s =
    if u16 address == 0x4014
    then dma_from (u8 value) 0 256 s
    else write_region (u16 address >> 13) (u16 address) (u8 value) s

-- C leaves the order of the two reads open: the low byte is read first.
unfoldable pub memory_readw : ℕ → Machine → ℕ × Machine
memory_readw address s0 =
    let (lo, s1) = memory_readb address s0 in
    let (hi, s2) = memory_readb (u16 address + 1) s1 in (u16 (lo + (hi << 8)), s2)

unfoldable pub memory_writew : ℕ → ℕ → Machine → Machine
memory_writew address value s =
    memory_writeb (u16 address + 1) (u16 value >> 8)
      (memory_writeb address (bit_and (u16 value) 0xff) s)

-- The stack routines of cpu.c; SP is a byte.
unfoldable pub set_sp : ℕ → Machine → Machine
set_sp v s = record s { cpu = record (s.cpu) { sp = u8 v } }

unfoldable pub cpu_stack_pushb : ℕ → Machine → Machine
unfolding set_sp
cpu_stack_pushb value s = memory_writeb (0x100 + s.cpu.sp) value (set_sp (s.cpu.sp + 255) s)

unfoldable pub cpu_stack_pushw : ℕ → Machine → Machine
unfolding set_sp
cpu_stack_pushw value s =
    let s' = memory_writew (0xff + s.cpu.sp) value s in set_sp (s'.cpu.sp + 254) s'

unfoldable pub cpu_stack_popb : Machine → ℕ × Machine
unfolding set_sp
cpu_stack_popb s = let s' = set_sp (s.cpu.sp + 1) s in memory_readb (0x100 + s'.cpu.sp) s'

unfoldable pub cpu_stack_popw : Machine → ℕ × Machine
unfolding set_sp
cpu_stack_popw s = let s' = set_sp (s.cpu.sp + 2) s in memory_readw (0xff + s'.cpu.sp) s'
