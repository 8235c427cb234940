-- ===== src/Npc/Virtio/Registers.antt =====
-- The registers of the block device of memory_models.h stay in range.
use Prim.Native.Nat.{bit_and}
use triathlon.Prelude.{
  ℕ, zero, suc, ◌+◌, ◌^◌, ◌<◌, ◌≤◌, Bool, true, ◌==◌, sym, subst, arith, inl, inr, Bool-cases,
  Option-cases,
}
use triathlon.Prelude.Words.{u8, u16}
use triathlon.Prelude.Bits.{bit_and_mask, bit_and-lt_left, bit_or-lt, bit_not}
use triathlon.Npc.State.{UnifiedMem, Virtio}
use triathlon.Npc.Clint.{halves}
use triathlon.Npc.Phys.{read_phys_u16}
use triathlon.Npc.Virtio.Ring.{virtio_push_used}
use triathlon.Npc.Virtio.Request.{virtio_process_blk_request}
use triathlon.Npc.Virtio.Device.{
  take_request, next_slot, notify_loop, raise_used, virtio_handle_notify, set_virtio_register,
  write_virtio_register, acknowledge, virtio_blk_reset_transport_state, virtio_mmio_write,
}
use triathlon.Npc.Virtio.Frames.{Frame, Frame-trans, process-Frame, push_used-Frame}

-- The queue is no longer than the arrays of `virtio_process_blk_request`, and every register that a
-- driver can change has its width: one bit for the two that hold no more, 8 for the status, 16 for
-- the index, 64 for the addresses and 32 for the rest.
unfoldable pub IsQueue : Virtio → Type 0
IsQueue v =
    (v.queue_num ≤ 128)
    × (v.queue_ready < 2)
    × (v.last_avail_idx < 2 ^ 16)
    × (v.queue_desc < 2 ^ 64)
    × (v.queue_avail < 2 ^ 64)
    × (v.queue_used < 2 ^ 64)
    × (v.status < 2 ^ 8)
    × (v.interrupt_status < 2)
    × (v.queue_sel < 2 ^ 32)
    × (v.device_features_sel < 2 ^ 32)
    × (v.driver_features_sel < 2 ^ 32)
    × (v.driver_features_lo < 2 ^ 32)
    × (v.driver_features_hi < 2 ^ 32)

set_register-IsQueue :
    (off value : ℕ) (v : Virtio)
    → value < 2 ^ 32
    → IsQueue v
    → IsQueue (set_virtio_register off value v)
unfolding IsQueue set_virtio_register
set_register-IsQueue off value v l
      (num, ready, last, desc, avail, used, status, pending, sel, device, driver, lo, hi) =
    let (_, _, _, _, d0, d1) = halves v.queue_desc value desc l in
    let (_, _, _, _, a0, a1) = halves v.queue_avail value avail l in
    let (_, _, _, _, u0, u1) = halves v.queue_used value used l in
    let one : bit_and value 1 < 2 = rw (bit_and_mask 1 value) (omega arith) in ground arith

Frame-IsQueue : (m n : UnifiedMem) → Frame m n → IsQueue m.virtio → IsQueue n.virtio
unfolding Frame IsQueue
Frame-IsQueue m n f q = subst (λ (x : UnifiedMem). IsQueue x.virtio) (sym f) q

counted-IsQueue :
    (n : UnifiedMem)
    → IsQueue n.virtio
    → IsQueue (record n.virtio { last_avail_idx = u16 (n.virtio.last_avail_idx + 1) })
unfolding IsQueue
counted-IsQueue n
      (num, ready, last, desc, avail, used, status, pending, sel, device, driver, lo, hi) =
    (num, ready, omega arith, desc, avail, used, status, pending, sel, device, driver, lo, hi)

take-IsQueue : (h : ℕ) (m : UnifiedMem) → IsQueue m.virtio → IsQueue ((take_request h m).virtio)
unfolding take_request
take-IsQueue h m q =
    let done = virtio_process_blk_request h m in
    let m' = virtio_push_used h done.used_len done.mem in
    let f =
      Frame-trans m done.mem m' (process-Frame h m) (push_used-Frame h done.used_len done.mem) in
    counted-IsQueue m' (Frame-IsQueue m m' f q)

loop-IsQueue :
    (fuel idx : ℕ) (p : Bool) (m : UnifiedMem)
    → IsQueue m.virtio
    → IsQueue ((notify_loop fuel idx p m).1.virtio)
unfolding notify_loop
loop-IsQueue zero idx p m q = q
loop-IsQueue (suc fuel) idx p m q = elim (Bool-cases (m.virtio.last_avail_idx == idx)) [
  | inl done ↦ rw (notify_loop, done) q
  | inr more ↦ elim (Option-cases (read_phys_u16 (next_slot m) m)) [
    | inl e ↦ rw (notify_loop, more, e) q
    | inr (h, e) ↦
        rw (notify_loop, more, e)
          (loop-IsQueue fuel idx true (take_request h m) (take-IsQueue h m q))
  ]
]

raise-IsQueue : (m : UnifiedMem) → IsQueue m.virtio → IsQueue ((raise_used m).virtio)
unfolding raise_used IsQueue
raise-IsQueue m
      (num, ready, last, desc, avail, used, status, pending, sel, device, driver, lo, hi) =
    (
      num,
      ready,
      last,
      desc,
      avail,
      used,
      status,
      bit_or-lt 1 _ 1 pending (omega arith),
      sel,
      device,
      driver,
      lo,
      hi,
    )

notify-IsQueue :
    (i : ℕ) (m : UnifiedMem) → IsQueue m.virtio → IsQueue ((virtio_handle_notify i m).virtio)
unfolding virtio_handle_notify
notify-IsQueue i m q = grind (arith, raise-IsQueue, loop-IsQueue)

acknowledge-IsQueue :
    (value : ℕ) (m : UnifiedMem) → IsQueue m.virtio → IsQueue ((acknowledge value m).virtio)
unfolding acknowledge IsQueue
acknowledge-IsQueue value m
      (num, ready, last, desc, avail, used, status, pending, sel, device, driver, lo, hi) =
    let less : bit_and m.virtio.interrupt_status (bit_not 32 value) < 2 =
      bit_and-lt_left 1 m.virtio.interrupt_status (bit_not 32 value) pending in
    (num, ready, last, desc, avail, used, status, less, sel, device, driver, lo, hi)

reset-IsQueue : (m : UnifiedMem) → IsQueue ((virtio_blk_reset_transport_state m).virtio)
unfolding virtio_blk_reset_transport_state IsQueue
reset-IsQueue m = omega arith

status-IsQueue : (n : ℕ) (v : Virtio) → IsQueue v → IsQueue (record v { status = u8 n })
unfolding IsQueue
status-IsQueue n v
      (num, ready, last, desc, avail, used, status, pending, sel, device, driver, lo, hi) =
    (num, ready, last, desc, avail, used, omega arith, pending, sel, device, driver, lo, hi)

register-IsQueue :
    (off value : ℕ) (m : UnifiedMem)
    → value < 2 ^ 32
    → IsQueue m.virtio
    → IsQueue ((write_virtio_register off value m).virtio)
unfolding write_virtio_register
register-IsQueue off value m l q =
    let notify = notify-IsQueue value m q in
    let ack = acknowledge-IsQueue value m q in
    let reset = reset-IsQueue m in
    let rest = set_register-IsQueue off value m.virtio l q in
    ground (arith, status-IsQueue (bit_and value 0xff) m.virtio q)

-- A write of any 32-bit value to any register, the doorbell and the reset included, keeps the
-- device in range, and so do writes in any order: if it was so before, the queue is no longer than
-- the arrays that follow its chains, and every register that a write can change keeps to its width:
-- one bit for the ready flag and the interrupt status, 8 for the status, 16 for the index of the
-- last request, 64 for the three addresses, 32 for the features and the selectors.
pub mmio_write-IsQueue :
    (a value : ℕ) (m : UnifiedMem)
    → value < 2 ^ 32
    → IsQueue m.virtio
    → IsQueue ((virtio_mmio_write a value m).virtio)
unfolding virtio_mmio_write
mmio_write-IsQueue a value m l q = register-IsQueue _ value m l q
