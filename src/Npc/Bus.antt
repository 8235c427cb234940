-- ===== src/Npc/Bus.antt =====
-- The loads and stores of memory_models.h: which device an address belongs to.
use Prim.Native.Nat.{bit_and, bit_or}
use triathlon.Prelude.{
  ℕ, zero, suc, ◌+◌, ◌-◌, ◌*◌, ◌/◌, Bool, true, false, not, ◌&&◌, ◌||◌, ◌==◌, ltb, leb,
  if◌then◌else◌, Option, none, some, List, [], ◌∷◌,
}
use triathlon.Prelude.Words.{u8, u16, u32, u64, ◌<<◌, ◌>>◌}
use triathlon.Prelude.Store.{Store, update}
use triathlon.Npc.State
use triathlon.Npc.State.{
  UnifiedMem, Watch, in_pmem, in_bootrom, in_uart, in_virtio_blk, pmem_base, pmem_size,
  boot_rom_base, boot_rom_size, clint_mtimecmp_low, clint_mtimecmp_high, clint_mtime_low,
  clint_mtime_high, plic_priority1, plic_pending, plic_enable_m, plic_threshold_m,
  plic_claim_complete_m, rtc_port_low, rtc_port_high,
}
use triathlon.Npc.Plic.{plic_complete_write, plic_claim_read, plic_claim_peek, plic_pending_bits}
use triathlon.Npc.Clint.{write_clint, low_half, high_half}
use triathlon.Npc.Uart.{uart_peek8, uart_write8}
use triathlon.Npc.Phys.{aligned, shift_of, word_index, merge}
use triathlon.Npc.Virtio.Device.{virtio_mmio_read, virtio_mmio_write}
pub mod Stores
pub mod Rom

unfoldable pub in_fw_text_watch : ℕ → Watch → Bool
in_fw_text_watch addr w = leb w.base addr && ltb addr w.limit

-- Of the `n` bytes from `addr + i` on.
unfoldable pub touches_bootrom : ℕ → ℕ → ℕ → Bool
touches_bootrom zero i addr = false
touches_bootrom (suc n) i addr = in_bootrom (u32 (addr + i)) || touches_bootrom n (i + 1) addr

unfoldable pub access_touches_bootrom : ℕ → ℕ → Bool
access_touches_bootrom addr size = touches_bootrom size 0 addr

unfoldable pub is_clint_word : ℕ → Bool
is_clint_word a =
    (a == clint_mtimecmp_low)
    || (a == clint_mtimecmp_high)
    || (a == clint_mtime_low)
    || (a == clint_mtime_high)

-- The four bytes of a word go to four registers of the serial port.
unfoldable pub write_uart_word : ℕ → ℕ → State.Uart → State.Uart
write_uart_word a value t = uart_write8 (u32 (a + 3)) (u8 (bit_and (value >> 24) 0xff)) (
    uart_write8 (u32 (a + 2)) (u8 (bit_and (value >> 16) 0xff)) (
      uart_write8 (u32 (a + 1)) (u8 (bit_and (value >> 8) 0xff))
        (uart_write8 a (u8 (bit_and value 0xff)) t)))

unfoldable pub read_uart_word : ℕ → State.Uart → ℕ
read_uart_word a t =
    bit_or
      (bit_or (bit_or (uart_peek8 a t) (uart_peek8 (u32 (a + 1)) t << 8))
        (uart_peek8 (u32 (a + 2)) t << 16))
      (uart_peek8 (u32 (a + 3)) t << 24)

unfoldable pub watched : ℕ → ℕ → Watch → Watch
watched a value w =
    if w.enabled && in_fw_text_watch a w
    then record w {
      write_count = u64 (w.write_count + 1);
      last_write_addr = a;
      last_write_data = value;
    }
    else w

-- The last case of `write_word`.
unfoldable pub write_pmem_word : ℕ → ℕ → UnifiedMem → UnifiedMem
write_pmem_word a value m =
    if not (in_pmem a)
    then m
    else if ltb ((a - pmem_base) >> 2) (pmem_size / 4)
    then record m {
      watch = watched a value m.watch;
      pmem_words = update m.pmem_words ((a - pmem_base) >> 2) value;
    }
    else m

-- `write_word` at an aligned address.
unfoldable pub write_aligned : ℕ → ℕ → UnifiedMem → UnifiedMem
write_aligned a value m =
    if is_clint_word a
    then record m { clint = write_clint a value m.clint }
    else if a == plic_priority1
    then record m { plic = record m.plic { priority1 = bit_and value 7 } }
    else if a == plic_enable_m
    then record m { plic = record m.plic { enable_m = value } }
    else if a == plic_threshold_m
    then record m { plic = record m.plic { threshold_m = bit_and value 7 } }
    else if a == plic_claim_complete_m
    then record m { plic = plic_complete_write value m.plic }
    else if in_uart a
    then record m { uart = write_uart_word a value m.uart }
    else if in_virtio_blk a
    then virtio_mmio_write a value m
    else if in_bootrom a
    then (if ltb ((a - boot_rom_base) >> 2) (boot_rom_size / 4)
        then record m { bootrom_words = update m.bootrom_words ((a - boot_rom_base) >> 2) value }
        else m)
    else write_pmem_word a value m

unfoldable pub write_word : ℕ → ℕ → UnifiedMem → UnifiedMem
write_word addr value m = write_aligned (aligned addr) value m

unfoldable pub read_word_common : ℕ → UnifiedMem → ℕ
read_word_common a m =
    if a == rtc_port_low
    then low_half m.clint.rtc_time_us
    else if a == rtc_port_high
    then high_half m.clint.rtc_time_us
    else if a == clint_mtimecmp_low
    then low_half m.clint.mtimecmp
    else if a == clint_mtimecmp_high
    then high_half m.clint.mtimecmp
    else if a == clint_mtime_low
    then low_half m.clint.mtime
    else if a == clint_mtime_high
    then high_half m.clint.mtime
    else if a == plic_priority1
    then m.plic.priority1
    else if a == plic_pending
    then plic_pending_bits m.plic
    else if a == plic_enable_m
    then m.plic.enable_m
    else if a == plic_threshold_m
    then m.plic.threshold_m
    else if a == plic_claim_complete_m
    then plic_claim_peek m.plic
    else if in_virtio_blk a
    then virtio_mmio_read a m
    else if in_uart a
    then read_uart_word a m.uart
    else if in_bootrom a
    then (if ltb ((a - boot_rom_base) >> 2) (boot_rom_size / 4)
        then m.bootrom_words ((a - boot_rom_base) >> 2)
        else 0)
    else if not (in_pmem a)
    then 0
    else if ltb ((a - pmem_base) >> 2) (pmem_size / 4)
    then m.pmem_words ((a - pmem_base) >> 2)
    else 0

-- The `const` overload, which does not claim.
unfoldable pub peek_word : ℕ → UnifiedMem → ℕ
peek_word addr m = read_word_common (aligned addr) m

unfoldable pub read_word : ℕ → UnifiedMem → ℕ × UnifiedMem
read_word addr m =
    if aligned addr == plic_claim_complete_m
    then (let (value, p) = plic_claim_read m.plic in (value, record m { plic = p }))
    else (read_word_common (aligned addr) m, m)

-- Reading, replacing a field and writing back.
unfoldable pub replace : ℕ → ℕ → ℕ → UnifiedMem → UnifiedMem
replace mask addr value m =
    let (cur, m') = read_word (aligned addr) m in
    write_word (aligned addr) (merge cur mask (shift_of addr) value) m'

unfoldable pub write_byte : ℕ → ℕ → UnifiedMem → UnifiedMem
write_byte addr value m =
    if in_uart addr
    then record m { uart = uart_write8 addr value m.uart }
    else if in_virtio_blk addr
    then replace 0xff addr value m
    else if not (in_pmem addr) && not (in_bootrom addr)
    then m
    else replace 0xff addr value m

abbrev pub is_known : ℕ → Bool
is_known addr = in_pmem addr || in_bootrom addr || in_uart addr || in_virtio_blk addr

unfoldable pub write_two : ℕ → ℕ → UnifiedMem → UnifiedMem
write_two addr value m =
    write_byte (u32 (addr + 1)) (u8 (bit_and (value >> 8) 0xff))
      (write_byte addr (u8 (bit_and value 0xff)) m)

unfoldable pub write_half : ℕ → ℕ → UnifiedMem → UnifiedMem
write_half addr value m =
    if not (is_known addr) || not (is_known (u32 (addr + 1)))
    then m
    else if in_uart addr || in_uart (u32 (addr + 1))
    then write_two addr value m
    else if in_virtio_blk addr || in_virtio_blk (u32 (addr + 1))
    then write_two addr value m
    else replace 0xffff addr value m

-- The operations of the store unit: 7, 8 and 9 are a byte, a half word and a word.
unfoldable pub write_store : ℕ → ℕ → ℕ → UnifiedMem → UnifiedMem
write_store addr value op m =
    if ((op == 7) && access_touches_bootrom addr 1)
      || ((op == 8) && access_touches_bootrom addr 2)
      || ((op == 9) && access_touches_bootrom addr 4)
    then m
    else if op == 7
    then write_byte addr (u8 (bit_and value 0xff)) m
    else if op == 8
    then write_half addr (u16 (bit_and value 0xffff)) m
    else if op == 9
    then write_word addr value m
    else m

-- The words of a cache line from number `i` on.
unfoldable pub fill_words : ℕ → ℕ → ℕ → UnifiedMem → List ℕ
fill_words zero i line_addr m = []
fill_words (suc n) i line_addr m =
    peek_word (u32 (line_addr + 4 * i)) m ∷ fill_words n (i + 1) line_addr m

unfoldable pub fill_line : ℕ → UnifiedMem → List ℕ
fill_line line_addr m = fill_words 8 0 line_addr m

-- `write_line` on its 8 words, and `load_words`.
unfoldable pub write_words : List ℕ → ℕ → ℕ → UnifiedMem → UnifiedMem
write_words [] i base m = m
write_words (w ∷ ws) i base m = write_words ws (i + 1) base (write_word (u32 (base + 4 * i)) w m)

unfoldable pub write_line : ℕ → List ℕ → UnifiedMem → UnifiedMem
write_line line_addr line m = write_words line 0 line_addr m

unfoldable pub load_words : List ℕ → ℕ → UnifiedMem → UnifiedMem
load_words words base m = write_words words 0 base m

-- Behind the end of a file there is nothing.
unfoldable pub file_byte : Store → ℕ → ℕ → ℕ
file_byte file size i = if ltb i size then file i else 0

-- The bytes of a file from `i` on as a word.
unfoldable pub file_word : Store → ℕ → ℕ → ℕ
file_word file size i =
    bit_or
      (bit_or (bit_or (file_byte file size i) (file_byte file size (i + 1) << 8))
        (file_byte file size (i + 2) << 16))
      (file_byte file size (i + 3) << 24)

unfoldable pub load_file_words : ℕ → Store → ℕ → ℕ → ℕ → UnifiedMem → UnifiedMem
load_file_words zero file size i base m = m
load_file_words (suc n) file size i base m =
    load_file_words n file size (i + 4) base
      (write_word (u32 (base + u32 i)) (file_word file size i) m)

-- `file` is the bytes of the file and their number, if it can be opened.
unfoldable pub load_binary : Option (Store × ℕ) → ℕ → UnifiedMem → Bool × UnifiedMem
load_binary none base m = (false, m)
load_binary (some (file, size)) base m = (true, load_file_words ((size + 3) / 4) file size 0 base m)
