-- ===== src/Npc/Virtio/Request.antt =====
-- `virtio_process_blk_request` of memory_models.h.
use triathlon.Prelude.{
  ℕ, zero, suc, ◌+◌, ◌-◌, ◌*◌, Bool, true, false, not, ◌&&◌, ◌||◌, ◌==◌, ltb, if◌then◌else◌, Option,
  none, some, List, [], ◌∷◌, length, get_or,
}
use triathlon.Prelude.Words.{u32, u64}
use triathlon.Prelude.Store.{update}
use triathlon.Npc.State.{UnifiedMem}
use triathlon.Npc.Phys.{read_phys_byte, write_phys_byte, read_phys_u32, read_phys_u64}
use triathlon.Npc.Virtio.Ring.{VirtqDesc, dev_write, chain_from}

abbrev pub virtio_blk_t_in : ℕ
virtio_blk_t_in = 0

abbrev pub virtio_blk_t_out : ℕ
virtio_blk_t_out = 1

abbrev pub virtio_blk_status_ok : ℕ
virtio_blk_status_ok = 0

abbrev pub virtio_blk_status_io_err : ℕ
virtio_blk_status_io_err = 1

abbrev pub virtio_blk_status_unsupp : ℕ
virtio_blk_status_unsupp = 2

abbrev pub virtio_blk_sector_size : ℕ
virtio_blk_sector_size = 512

-- The result, what is left in the arguments `used_len` and `status`, and the memory.
pub record Outcome : Type 0 where
  pub ok : Bool
  pub used_len : ℕ
  pub status : ℕ
  pub mem : UnifiedMem

-- A byte that was read, if it was, goes into the image.
unfoldable pub store_byte : Option ℕ → ℕ → UnifiedMem → Bool × UnifiedMem
store_byte none disk m = (false, m)
store_byte (some v) disk m =
    (true, record m { virtio = record m.virtio { image = update m.virtio.image disk v } })

-- One byte to the guest, or from the guest into the image.
unfoldable pub move_byte : ℕ → ℕ → ℕ → UnifiedMem → Bool × UnifiedMem
move_byte req_type addr disk m =
    if req_type == virtio_blk_t_in
    then write_phys_byte addr (m.virtio.image disk) m
    else store_byte (read_phys_byte addr m) disk m

-- The bytes of one descriptor from byte `b` on, `n` of them, up to the first that fails.
unfoldable pub move_bytes : ℕ → ℕ → ℕ → ℕ → ℕ → UnifiedMem → Bool × UnifiedMem
move_bytes zero b req_type addr disk_off m = (true, m)
move_bytes (suc n) b req_type addr disk_off m =
    let (ok, m') = move_byte req_type (u64 (addr + b)) (u64 (disk_off + b)) m in
    let rest = move_bytes n (b + 1) req_type addr disk_off m' in
    if not ok then (false, m') else rest

-- The data descriptors, with the place on the disk and the bytes used so far.
unfoldable pub transfer : List VirtqDesc → ℕ → ℕ → ℕ → UnifiedMem → Bool × ℕ × UnifiedMem
transfer [] req_type disk_off used_len m = (true, used_len, m)
transfer (d ∷ ds) req_type disk_off used_len m =
    let (ok, m') = move_bytes d.len 0 req_type d.addr disk_off m in
    let rest = transfer ds req_type (u64 (disk_off + d.len)) (u32 (used_len + d.len)) m' in
    if (req_type == virtio_blk_t_in) && not (dev_write d)
    then (false, used_len, m)
    else if (req_type == virtio_blk_t_out) && dev_write d
    then (false, used_len, m)
    else if ltb m.virtio.image_size (u64 (disk_off + d.len))
    then (false, used_len, m)
    else if not ok
    then (false, used_len, m')
    else rest

abbrev pub without_last {ℓ} : {A : Type ℓ} → List A → List A
without_last [] = []
without_last (x ∷ []) = []
without_last (x ∷ y ∷ ys) = x ∷ without_last (y ∷ ys)

-- All but the first and the last.
abbrev pub middle {ℓ} : {A : Type ℓ} → List A → List A
middle [] = []
middle (x ∷ xs) = without_last xs

abbrev pub no_desc : VirtqDesc
no_desc = record { addr = 0; len = 0; flags = 0; next = 0 }

-- The early returns.
abbrev pub refused : UnifiedMem → Outcome
refused m = record { ok = false; used_len = 0; status = virtio_blk_status_io_err; mem = m }

-- A request of a known type, and the status byte.
unfoldable pub serve : List VirtqDesc → ℕ → ℕ → ℕ → UnifiedMem → Outcome
serve chain status_addr req_type sector m =
    let (ok, used_len, m') =
      transfer (middle chain) req_type (u64 (sector * virtio_blk_sector_size)) 0 m in
    let status = if ok then virtio_blk_status_ok else virtio_blk_status_io_err in
    record {
      ok = ok;
      used_len = used_len;
      status = status;
      mem = (write_phys_byte status_addr status m').1;
    }

unfoldable pub unsupported : ℕ → UnifiedMem → Outcome
unsupported status_addr m = record {
  ok = false;
  used_len = 0;
  status = virtio_blk_status_unsupp;
  mem = (write_phys_byte status_addr virtio_blk_status_unsupp m).1;
}

-- From the header on.
unfoldable pub process_chain : List VirtqDesc → UnifiedMem → Outcome
process_chain chain m =
    let hdr_desc = get_or chain 0 no_desc in
    let status_desc = get_or chain (length chain - 1) no_desc in
    if ltb (length chain) 3
    then refused m
    else if ltb hdr_desc.len 16
    then refused m
    else if not (dev_write status_desc) || ltb status_desc.len 1
    then refused m
    else elim (read_phys_u32 hdr_desc.addr m) [
      | none ↦ refused m
      | some req_type ↦ elim (read_phys_u64 (u64 (hdr_desc.addr + 8)) m) [
        | none ↦ refused m
        | some sector ↦
            if not (req_type == virtio_blk_t_in) && not (req_type == virtio_blk_t_out)
            then unsupported status_desc.addr m
            else serve chain status_desc.addr req_type sector m
      ]
    ]

unfoldable pub virtio_process_blk_request : ℕ → UnifiedMem → Outcome
virtio_process_blk_request head_idx m =
    if not m.virtio.enabled_flag
    then refused m
    else if m.virtio.queue_num == 0
    then refused m
    else elim (chain_from head_idx m) [ none ↦ refused m | some chain ↦ process_chain chain m ]
