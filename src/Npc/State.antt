-- ===== src/Npc/State.antt =====
-- The state of `UnifiedMem` in npc/csrc/include/memory_models.h, grouped by device.
use triathlon.Prelude.{ℕ, ◌+◌, Bool, ◌&&◌, leb, ltb, List}
use triathlon.Prelude.Store.{Store}

-- `plic_priority1` to `plic_claimed1`.
pub record Plic : Type 0 where
  pub priority1 : ℕ
  pub enable_m : ℕ
  pub threshold_m : ℕ
  pub source_pending1 : Bool
  pub pending1 : Bool
  pub claimed1 : Bool

-- `rtc_time_us`, `clint_mtime` and `clint_mtimecmp`.
pub record Clint : Type 0 where
  pub rtc_time_us : ℕ
  pub mtime : ℕ
  pub mtimecmp : ℕ

-- `uart_stdout_enabled` to `uart_last_tx`; `out` is what was put on `std::cout`, the last first.
pub record Uart : Type 0 where
  pub stdout_enabled : Bool
  pub ier : ℕ
  pub fcr : ℕ
  pub lcr : ℕ
  pub mcr : ℕ
  pub lsr : ℕ
  pub msr : ℕ
  pub scr : ℕ
  pub dll : ℕ
  pub dlm : ℕ
  pub tx_bytes : ℕ
  pub last_tx : ℕ
  pub out : List ℕ

-- `virtio_blk_enabled_flag` to `virtio_config_generation`. The image is an array of `image_size` bytes.
pub record Virtio : Type 0 where
  pub enabled_flag : Bool
  pub image : Store
  pub image_size : ℕ
  pub device_features_sel : ℕ
  pub driver_features_sel : ℕ
  pub driver_features_lo : ℕ
  pub driver_features_hi : ℕ
  pub queue_sel : ℕ
  pub queue_num : ℕ
  pub queue_ready : ℕ
  pub queue_desc : ℕ
  pub queue_avail : ℕ
  pub queue_used : ℕ
  pub last_avail_idx : ℕ
  pub status : ℕ
  pub interrupt_status : ℕ
  pub config_generation : ℕ

-- `fw_text_watch_enabled` to `fw_text_last_write_data`.
pub record Watch : Type 0 where
  pub enabled : Bool
  pub base : ℕ
  pub limit : ℕ
  pub write_count : ℕ
  pub last_write_addr : ℕ
  pub last_write_data : ℕ

pub record UnifiedMem : Type 0 where
  pub pmem_words : Store
  pub bootrom_words : Store
  pub clint : Clint
  pub plic : Plic
  pub virtio : Virtio
  pub uart : Uart
  pub watch : Watch

-- The memory map, npc/csrc/include/platform_contract.h.
abbrev pub pmem_base : ℕ
pmem_base = 0x80000000

abbrev pub pmem_size : ℕ
pmem_size = 0x08000000

abbrev pub boot_rom_base : ℕ
boot_rom_base = 0x00001000

abbrev pub boot_rom_size : ℕ
boot_rom_size = 0x00001000

abbrev pub dtb_base : ℕ
dtb_base = 0x83F00000

abbrev pub clint_base : ℕ
clint_base = 0x02000000

abbrev pub clint_mtimecmp_low : ℕ
clint_mtimecmp_low = clint_base + 0x00004000

abbrev pub clint_mtimecmp_high : ℕ
clint_mtimecmp_high = clint_base + 0x00004004

abbrev pub clint_mtime_low : ℕ
clint_mtime_low = clint_base + 0x0000BFF8

abbrev pub clint_mtime_high : ℕ
clint_mtime_high = clint_base + 0x0000BFFC

abbrev pub plic_base : ℕ
plic_base = 0x0C000000

abbrev pub plic_priority1 : ℕ
plic_priority1 = plic_base + 0x00000004

abbrev pub plic_pending : ℕ
plic_pending = plic_base + 0x00001000

abbrev pub plic_enable_m : ℕ
plic_enable_m = plic_base + 0x00002000

abbrev pub plic_threshold_m : ℕ
plic_threshold_m = plic_base + 0x00200000

abbrev pub plic_claim_complete_m : ℕ
plic_claim_complete_m = plic_base + 0x00200004

abbrev pub virtio_blk_base : ℕ
virtio_blk_base = 0x10001000

abbrev pub virtio_blk_size : ℕ
virtio_blk_size = 0x00001000

abbrev pub virtio_blk_irq_id : ℕ
virtio_blk_irq_id = 1

abbrev pub uart_tx : ℕ
uart_tx = 0xA00003F8

abbrev pub rtc_port_low : ℕ
rtc_port_low = 0xA0000048

abbrev pub rtc_port_high : ℕ
rtc_port_high = 0xA000004C

abbrev pub in_pmem : ℕ → Bool
in_pmem addr = leb pmem_base addr && ltb addr (pmem_base + pmem_size)

abbrev pub in_bootrom : ℕ → Bool
in_bootrom addr = leb boot_rom_base addr && ltb addr (boot_rom_base + boot_rom_size)

abbrev pub in_uart : ℕ → Bool
in_uart addr = leb uart_tx addr && ltb addr (uart_tx + 8)

abbrev pub in_virtio_blk : ℕ → Bool
in_virtio_blk addr = leb virtio_blk_base addr && ltb addr (virtio_blk_base + virtio_blk_size)
