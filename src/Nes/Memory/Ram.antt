-- ===== src/Nes/Memory/Ram.antt =====
-- Accesses of memory.c to the processor's RAM and to the cartridge.
use Prim.Native.Nat.{bit_and}
use triathlon.Prelude.{ℕ, ◌+◌, ◌/◌, ◌%◌, ◌^◌, ◌≤◌, ◌<◌, ◌≡◌, refl, ap, true, false, arith, ◌==◌}
use triathlon.Prelude.Bits.{bit_and_mask}
use triathlon.Prelude.Words.{u8, u16, ◌<<◌}
use triathlon.Prelude.Store.{update}
use triathlon.Nes.State.{Machine}
use triathlon.Nes.Mmc.{mmc_read}
use triathlon.Nes.Memory.{
  cpu_ram_read, cpu_ram_write, read_region, write_region, memory_readb, memory_writeb, memory_readw,
}

pub mask_11 : (n : ℕ) → bit_and n 0x7ff ≡ n % 0x800
mask_11 n = bit_and_mask 11 n

-- The RAM is indexed twice by the low 11 digits.
folded : (n : ℕ) → bit_and (u16 (bit_and n 0x7ff)) 0x7ff ≡ n % 0x800
folded n = rw (mask_11 n, mask_11 (u16 (n % 0x800))) (omega arith)

-- Below 0x2000 a read is one of RAM, repeated every 0x800 bytes, and touches nothing.
pub readb-ram :
    (address : ℕ) (s : Machine)
    → address < 0x2000
    → memory_readb address s ≡ (s.cpu_ram (address % 0x800), s)
unfolding memory_readb read_region cpu_ram_read
readb-ram address s h =
    let word : u16 address ≡ address = omega arith in
    let region : (address / 2 ^ 13 == 0) ≡ true = ground arith in
    rw (word, region) (ap (λ k. (s.cpu_ram k, s)) (folded address))

pub writeb-ram :
    (address value : ℕ) (s : Machine)
    → address < 0x2000
    → memory_writeb address value s
      ≡ record s { cpu_ram = update s.cpu_ram (address % 0x800) (u8 value) }
unfolding memory_writeb write_region cpu_ram_write
writeb-ram address value s h =
    let word : u16 address ≡ address = omega arith in
    let region : (address / 2 ^ 13 == 0) ≡ true = ground arith in
    let no_dma : (address == 0x4014) ≡ false = ground arith in
    let byte : u8 (u8 value) ≡ u8 value = omega arith in
    rw (word, region, no_dma, folded address, byte) refl

-- From 0x8000 on a read is one of the cartridge, and touches nothing.
pub readb-mmc :
    (address : ℕ) (s : Machine)
    → 0x8000 ≤ address
    → address < 0x10000
    → memory_readb address s ≡ (s.mmc.memory address, s)
unfolding memory_readb read_region mmc_read
readb-mmc address s lo hi =
    let word : u16 address ≡ address = omega arith in
    let r0 : (address / 2 ^ 13 == 0) ≡ false = ground arith in
    let r1 : (address / 2 ^ 13 == 1) ≡ false = ground arith in
    let r2 : (address / 2 ^ 13 == 2) ≡ false = ground arith in
    let r3 : (address / 2 ^ 13 == 3) ≡ false = ground arith in rw (word, r0, r1, r2, r3) refl

pub readw-mmc :
    (address : ℕ) (s : Machine)
    → 0x8000 ≤ address
    → address < 0xffff
    → memory_readw address s ≡ (u16 (s.mmc.memory address + (s.mmc.memory (address + 1) << 8)), s)
unfolding memory_readw
readw-mmc address s lo hi =
    let word : u16 address ≡ address = omega arith in
    rw
      (
        readb-mmc address s lo (omega arith),
        word,
        readb-mmc (address + 1) s (omega arith) (omega arith),
      )
      refl
