-- ===== src/Npc/Phys.antt =====
-- The accesses of memory_models.h to physical memory, as the devices make them.
use Prim.Native.Nat.{bit_and, bit_or}
use triathlon.Prelude.{
  ℕ, zero, suc, ◌+◌, ◌-◌, ◌*◌, ◌/◌, Bool, true, false, not, ◌||◌, ltb, leb, if◌then◌else◌, Option,
  none, some, ◌>>=◌,
}
use triathlon.Prelude.Words.{u8, u16, u32, u64, ◌<<◌, ◌>>◌}
use triathlon.Prelude.Bits.{bit_not}
use triathlon.Prelude.Store.{update}
use triathlon.Npc.State.{
  UnifiedMem, in_pmem, in_bootrom, pmem_base, pmem_size, boot_rom_base, boot_rom_size,
}
pub mod Words
pub mod Bytes
pub mod RoundTrip

-- `addr & ~0x3u`.
unfoldable pub aligned : ℕ → ℕ
aligned addr = bit_and addr 0xFFFFFFFC

-- `(addr & 0x3u) * 8u`.
unfoldable pub shift_of : ℕ → ℕ
shift_of addr = bit_and addr 3 * 8

-- `(aligned - base) >> 2`.
unfoldable pub word_index : ℕ → ℕ → ℕ
word_index base addr = (aligned addr - base) >> 2

-- `(cur & ~(mask << shift)) | (data << shift)`.
unfoldable pub merge : ℕ → ℕ → ℕ → ℕ → ℕ
merge cur mask shift value =
    bit_or (bit_and cur (bit_not 32 (u32 (mask << shift)))) (u32 (value << shift))

-- `none` is the result false, which leaves `out` alone.
unfoldable pub read_phys_byte : ℕ → UnifiedMem → Option ℕ
read_phys_byte addr m =
    if ltb 0xFFFFFFFF addr
    then none
    else if in_pmem addr
    then (if leb (pmem_size / 4) (word_index pmem_base addr)
        then none
        else some (u8 (bit_and (m.pmem_words (word_index pmem_base addr) >> shift_of addr) 0xff)))
    else if in_bootrom addr
    then (if leb (boot_rom_size / 4) (word_index boot_rom_base addr)
        then none
        else some
            (u8 (bit_and (m.bootrom_words (word_index boot_rom_base addr) >> shift_of addr) 0xff)))
    else none

-- The result, and the memory.
unfoldable pub write_phys_byte : ℕ → ℕ → UnifiedMem → Bool × UnifiedMem
write_phys_byte addr value m =
    if ltb 0xFFFFFFFF addr
    then (false, m)
    else if not (in_pmem addr)
    then (false, m)
    else if leb (pmem_size / 4) (word_index pmem_base addr)
    then (false, m)
    else (
      true,
      record m {
        pmem_words =
            update m.pmem_words (word_index pmem_base addr)
              (merge (m.pmem_words (word_index pmem_base addr)) 0xff (shift_of addr) value);
      },
    )

-- Addresses are 64 bits wide.
unfoldable pub read_phys_u16 : ℕ → UnifiedMem → Option ℕ
read_phys_u16 addr m = do
  b0 ← read_phys_byte addr m
  b1 ← read_phys_byte (u64 (addr + 1)) m
  some (bit_or b0 (b1 << 8))

unfoldable pub read_phys_u32 : ℕ → UnifiedMem → Option ℕ
read_phys_u32 addr m = do
  b0 ← read_phys_byte addr m
  b1 ← read_phys_byte (u64 (addr + 1)) m
  b2 ← read_phys_byte (u64 (addr + 2)) m
  b3 ← read_phys_byte (u64 (addr + 3)) m
  some (bit_or (bit_or (bit_or b0 (b1 << 8)) (b2 << 16)) (b3 << 24))

unfoldable pub read_phys_u64 : ℕ → UnifiedMem → Option ℕ
read_phys_u64 addr m = do
  lo ← read_phys_u32 addr m
  hi ← read_phys_u32 (u64 (addr + 4)) m
  some (bit_or lo (hi << 32))

-- The bytes of a value from byte `i` on, up to the first one that cannot be written.
unfoldable pub write_bytes : ℕ → ℕ → ℕ → ℕ → UnifiedMem → Bool × UnifiedMem
write_bytes zero i addr value m = (true, m)
write_bytes (suc n) i addr value m =
    let (ok, m') = write_phys_byte (u64 (addr + i)) (bit_and (value >> (i * 8)) 0xff) m in
    let rest = write_bytes n (i + 1) addr value m' in if not ok then (false, m') else rest

unfoldable pub write_phys_u16 : ℕ → ℕ → UnifiedMem → Bool × UnifiedMem
write_phys_u16 addr value m = write_bytes 2 0 addr value m

unfoldable pub write_phys_u32 : ℕ → ℕ → UnifiedMem → Bool × UnifiedMem
write_phys_u32 addr value m = write_bytes 4 0 addr value m
