-- ===== src/Npc/Virtio/Device.antt =====
-- The registers of the block device of memory_models.h, and the doorbell.
use Prim.Native.Nat.{bit_and, bit_or}
use triathlon.Prelude.{
  ℕ, zero, suc, ◌+◌, ◌*◌, ◌/◌, ◌%◌, ◌^◌, Bool, true, false, not, ◌&&◌, ◌||◌, ◌==◌, ltb, leb,
  if◌then◌else◌, Option, none, some,
}
use triathlon.Prelude.Words.{u8, u16, u64, sub_int}
use triathlon.Prelude.Bits.{bit_not}
use triathlon.Prelude.Store.{Store}
use triathlon.Npc.State.{UnifiedMem, Virtio, virtio_blk_base, virtio_blk_irq_id}
use triathlon.Npc.Plic.{set_plic_source_pending}
use triathlon.Npc.Clint.{set_low, set_high, low_half, high_half}
use triathlon.Npc.Phys.{read_phys_u16}
use triathlon.Npc.Virtio.Ring.{virtio_queue_num_max, virtio_push_used}
use triathlon.Npc.Virtio.Request.{virtio_process_blk_request, virtio_blk_sector_size}

unfoldable pub virtio_blk_capacity_sectors : Virtio → ℕ
virtio_blk_capacity_sectors v = v.image_size / virtio_blk_sector_size

unfoldable pub virtio_blk_reset_transport_state : UnifiedMem → UnifiedMem
virtio_blk_reset_transport_state m = record m {
  virtio = record m.virtio {
    device_features_sel = 0;
    driver_features_sel = 0;
    driver_features_lo = 0;
    driver_features_hi = 0;
    queue_sel = 0;
    queue_num = 0;
    queue_ready = 0;
    queue_desc = 0;
    queue_avail = 0;
    queue_used = 0;
    last_avail_idx = 0;
    status = 0;
    interrupt_status = 0;
  };
  plic = set_plic_source_pending virtio_blk_irq_id false m.plic;
}

-- `file` is the bytes of the image and their number, if the file can be opened.
unfoldable pub load_virtio_blk_image : Option (Store × ℕ) → UnifiedMem → Bool × UnifiedMem
load_virtio_blk_image none m = (false, m)
load_virtio_blk_image (some (image, size)) m = (
  true,
  virtio_blk_reset_transport_state (record m {
    virtio = record m.virtio { image = image; image_size = size; enabled_flag = true };
  }),
)

-- One round of the loop of `virtio_handle_notify`.
unfoldable pub take_request : ℕ → UnifiedMem → UnifiedMem
take_request head_idx m =
    let done = virtio_process_blk_request head_idx m in
    let m' = virtio_push_used head_idx done.used_len done.mem in
    record m' { virtio = record m'.virtio { last_avail_idx = u16 (m'.virtio.last_avail_idx + 1) } }

-- The address of the ring slot that comes next.
unfoldable pub next_slot : UnifiedMem → ℕ
next_slot m = u64 (m.virtio.queue_avail + 4 + m.virtio.last_avail_idx % m.virtio.queue_num * 2)

-- The loop, on fuel, and whether it processed anything.
unfoldable pub notify_loop : ℕ → ℕ → Bool → UnifiedMem → Bool × UnifiedMem
notify_loop zero avail_idx processed m = (processed, m)
notify_loop (suc fuel) avail_idx processed m =
    if m.virtio.last_avail_idx == avail_idx
    then (processed, m)
    else elim (read_phys_u16 (next_slot m) m) [
      | none ↦ (processed, m)
      | some head_idx ↦ notify_loop fuel avail_idx true (take_request head_idx m)
    ]

unfoldable pub raise_used : UnifiedMem → UnifiedMem
raise_used m = record m {
  virtio = record m.virtio { interrupt_status = bit_or m.virtio.interrupt_status 1 };
  plic = set_plic_source_pending virtio_blk_irq_id true m.plic;
}

-- An index of 16 bits comes round after 2 ^ 16 rounds.
unfoldable pub virtio_handle_notify : ℕ → UnifiedMem → UnifiedMem
virtio_handle_notify queue_idx m =
    if not m.virtio.enabled_flag
    then m
    else if not (queue_idx == 0)
    then m
    else if (m.virtio.queue_num == 0) || ltb virtio_queue_num_max m.virtio.queue_num
    then m
    else if m.virtio.queue_ready == 0
    then m
    else elim (read_phys_u16 (u64 (m.virtio.queue_avail + 2)) m) [
      | none ↦ m
      | some avail_idx ↦
          let (processed, m') = notify_loop (2 ^ 16) avail_idx false m in
          if processed then raise_used m' else m'
    ]

-- A register by its distance from `virtio_blk_base`.
unfoldable pub read_virtio_register : ℕ → Virtio → ℕ
read_virtio_register off v =
    if off == 0x000
    then 0x74726976
    else if off == 0x004
    then 2
    else if off == 0x008
    then (if v.enabled_flag then 2 else 0)
    else if off == 0x00c
    then 0x554d4551
    else if off == 0x010
    then (if v.device_features_sel == 1 then 1 else 0)
    else if off == 0x014
    then v.device_features_sel
    else if off == 0x020
    then (if v.driver_features_sel == 0 then v.driver_features_lo else v.driver_features_hi)
    else if off == 0x024
    then v.driver_features_sel
    else if off == 0x030
    then v.queue_sel
    else if off == 0x034
    then (if (v.queue_sel == 0) && v.enabled_flag then virtio_queue_num_max else 0)
    else if off == 0x038
    then v.queue_num
    else if off == 0x044
    then v.queue_ready
    else if off == 0x060
    then v.interrupt_status
    else if off == 0x070
    then v.status
    else if off == 0x080
    then low_half v.queue_desc
    else if off == 0x084
    then high_half v.queue_desc
    else if off == 0x090
    then low_half v.queue_avail
    else if off == 0x094
    then high_half v.queue_avail
    else if off == 0x0a0
    then low_half v.queue_used
    else if off == 0x0a4
    then high_half v.queue_used
    else if off == 0x0fc
    then v.config_generation
    else if off == 0x100
    then low_half (virtio_blk_capacity_sectors v)
    else if off == 0x104
    then high_half (virtio_blk_capacity_sectors v)
    else 0

unfoldable pub virtio_mmio_read : ℕ → UnifiedMem → ℕ
virtio_mmio_read aligned m = read_virtio_register (sub_int aligned virtio_blk_base) m.virtio

-- The registers that only hold their value.
unfoldable pub set_virtio_register : ℕ → ℕ → Virtio → Virtio
set_virtio_register off value v =
    if off == 0x014
    then record v { device_features_sel = value }
    else if off == 0x020
    then (if v.driver_features_sel == 0
        then record v { driver_features_lo = value }
        else if v.driver_features_sel == 1
        then record v { driver_features_hi = value }
        else v)
    else if off == 0x024
    then record v { driver_features_sel = value }
    else if off == 0x030
    then record v { queue_sel = value }
    else if off == 0x038
    then (if (v.queue_sel == 0) && leb value virtio_queue_num_max
        then record v { queue_num = value }
        else v)
    else if off == 0x044
    then (if v.queue_sel == 0
        then record v {
          queue_ready = bit_and value 1;
          last_avail_idx = if bit_and value 1 == 0 then 0 else v.last_avail_idx;
        }
        else v)
    else if off == 0x080
    then record v { queue_desc = set_low v.queue_desc value }
    else if off == 0x084
    then record v { queue_desc = set_high v.queue_desc value }
    else if off == 0x090
    then record v { queue_avail = set_low v.queue_avail value }
    else if off == 0x094
    then record v { queue_avail = set_high v.queue_avail value }
    else if off == 0x0a0
    then record v { queue_used = set_low v.queue_used value }
    else if off == 0x0a4
    then record v { queue_used = set_high v.queue_used value }
    else v

-- Writing ones clears bits, and the interrupt goes with the last of them.
unfoldable pub acknowledge : ℕ → UnifiedMem → UnifiedMem
acknowledge value m =
    let left = bit_and m.virtio.interrupt_status (bit_not 32 value) in
    record m {
      virtio = record m.virtio { interrupt_status = left };
      plic =
          if bit_and left 1 == 0
          then set_plic_source_pending virtio_blk_irq_id false m.plic
          else m.plic;
    }

unfoldable pub write_virtio_register : ℕ → ℕ → UnifiedMem → UnifiedMem
write_virtio_register off value m =
    if off == 0x050
    then virtio_handle_notify value m
    else if off == 0x064
    then acknowledge value m
    else if off == 0x070
    then (if value == 0
        then virtio_blk_reset_transport_state m
        else record m { virtio = record m.virtio { status = u8 (bit_and value 0xff) } })
    else record m { virtio = set_virtio_register off value m.virtio }

unfoldable pub virtio_mmio_write : ℕ → ℕ → UnifiedMem → UnifiedMem
virtio_mmio_write aligned value m = write_virtio_register (sub_int aligned virtio_blk_base) value m
