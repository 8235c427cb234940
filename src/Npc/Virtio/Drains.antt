-- ===== src/Npc/Virtio/Drains.antt =====
-- The doorbell of the block device of memory_models.h serves every request that is waiting.
use Prim.Native.Nat.{bit_or}
use triathlon.Prelude.{
  List, [], ◌∷◌, ℕ, zero, suc, ◌+◌, ◌-◌, ◌^◌, ◌<◌, ◌≤◌, Bool, true, false, ◌==◌, ltb, ◌||◌,
  if◌then◌else◌, none, some, ◌≡◌, ◌≢◌, refl, sym, ◌⊎◌, inl, inr, arith, Bool-cases, Option-cases,
  ==_refl,
}
use triathlon.Prelude.Words.{u64}
use triathlon.Npc.State.{UnifiedMem}
use triathlon.Npc.Plic.{set_plic_source_pending, refresh_plic_pending}
use triathlon.Npc.Phys.{read_phys_u16}
use triathlon.Npc.Virtio.Device.{
  take_request, next_slot, notify_loop, raise_used, virtio_handle_notify,
}
use triathlon.Npc.Virtio.Served.{available, Served, is_cons, Rounds, loop-Rounds}

loop-done :
    (fuel : ℕ) (p : Bool) (m : UnifiedMem) → notify_loop fuel m.virtio.last_avail_idx p m ≡ (p, m)
unfolding notify_loop
loop-done zero p m = refl
loop-done (suc fuel) p m = rw (==_refl m.virtio.last_avail_idx) refl

loop-processed : (fuel idx : ℕ) (m : UnifiedMem) → (notify_loop fuel idx true m).0 ≡ true
unfolding notify_loop
loop-processed zero idx m = refl
loop-processed (suc fuel) idx m = elim (Bool-cases (m.virtio.last_avail_idx == idx)) [
  | inl done ↦ rw (notify_loop, done) refl
  | inr more ↦ elim (Option-cases (read_phys_u16 (next_slot m) m)) [
    | inl e ↦ rw (notify_loop, more, e) refl
    | inr (h, e) ↦ rw (notify_loop, more, e) (loop-processed fuel idx (take_request h m))
  ]
]

-- A request that can be taken is.
loop-takes :
    (fuel idx h : ℕ) (m : UnifiedMem)
    → m.virtio.last_avail_idx ≢ idx
    → read_phys_u16 (next_slot m) m ≡ some h
    → (notify_loop (suc fuel) idx false m).0 ≡ true
unfolding notify_loop
loop-takes fuel idx h m ne e =
    let more : (m.virtio.last_avail_idx == idx) ≡ false = ground arith in
    rw (more, e) (loop-processed fuel idx (take_request h m))

raise-pending : (m : UnifiedMem) → (raise_used m).plic.source_pending1 ≡ true
unfolding raise_used set_plic_source_pending refresh_plic_pending
raise-pending m = ground arith

raise-status :
    (m : UnifiedMem) → (raise_used m).virtio.interrupt_status ≡ bit_or m.virtio.interrupt_status 1
unfolding raise_used
raise-status m = refl

-- What the doorbell comes to when the queue is set up.
doorbell :
    (m : UnifiedMem) (avail_idx : ℕ)
    → m.virtio.enabled_flag ≡ true
    → 0 < m.virtio.queue_num
    → m.virtio.queue_num ≤ 128
    → 0 < m.virtio.queue_ready
    → read_phys_u16 (u64 (m.virtio.queue_avail + 2)) m ≡ some avail_idx
    → virtio_handle_notify 0 m ≡ (
        let (processed, m') = notify_loop (2 ^ 16) avail_idx false m in
        if processed then raise_used m' else m')
unfolding virtio_handle_notify
doorbell m avail_idx en q0 q1 r e =
    let sized : ((m.virtio.queue_num == 0) || ltb 128 m.virtio.queue_num) ≡ false = ground arith in
    let ready : (m.virtio.queue_ready == 0) ≡ false = ground arith in
    rw (e, sized, ready) (ground arith)

-- What the doorbell has done: the requests with these heads are served, the line is raised if there
-- is one, and the last request is the one that the driver has published, or its slot is unreadable.
pub record Drained (idx : ℕ) (m out : UnifiedMem) : Type 0 where
  pub heads : List ℕ
  pub after : UnifiedMem
  pub served : Served idx heads m after
  pub ends : (after.virtio.last_avail_idx ≡ idx) ⊎ (available after ≡ none)
  pub left : out ≡ (if is_cons heads then raise_used after else after)
  pub raised :
      (heads ≡ [])
      ⊎ ((out.plic.source_pending1 ≡ true)
          × (out.virtio.interrupt_status ≡ bit_or after.virtio.interrupt_status 1))

Rounds-Drained :
    (idx : ℕ) (m : UnifiedMem) (out : Bool × UnifiedMem)
    → Rounds idx false m out
    → Drained idx m (if out.0 then raise_used (out.1) else out.1)
Rounds-Drained idx m out loop = record {
  heads = loop.heads;
  after = out.1;
  served = loop.served;
  ends = loop.ends;
  left = rw (loop.processed) refl;
  raised = rw (loop.processed) (either (loop.heads));
}
  where
    either :
        (hs : List ℕ)
        → (hs ≡ [])
          ⊎ let left = if is_cons hs then raise_used (out.1) else out.1 in
            (left.plic.source_pending1 ≡ true)
            × (left.virtio.interrupt_status ≡ bit_or (out.1).virtio.interrupt_status 1)
    either [] = inl refl
    either (h ∷ hs) = inr (raise-pending (out.1), raise-status (out.1))

module _ (m : UnifiedMem) (avail_idx : ℕ) (en : m.virtio.enabled_flag ≡ true)
    (q0 : 0 < m.virtio.queue_num) (q1 : m.virtio.queue_num ≤ 128) (r : 0 < m.virtio.queue_ready)
    (lm : m.virtio.last_avail_idx < 2 ^ 16) (li : avail_idx < 2 ^ 16)
    (e : read_phys_u16 (u64 (m.virtio.queue_avail + 2)) m ≡ some avail_idx) where
  -- The doorbell terminates (2 ^ 16 rounds are enough) and serves every request, from any state in
  -- which the queue is set up and `avail_idx` is the index that the driver has published: from the
  -- last one served on, the chain at the head that each slot of the available ring names is
  -- processed by `virtio_process_blk_request`, and that head with the length of the answer pushed by
  -- `virtio_push_used`, one after the other, until the last one served is the one published, or a
  -- slot cannot be read; and if there was one, the bit of the interrupt status is set and the line of
  -- the interrupt controller raised.
  pub handle_notify-Drained : Drained avail_idx m (virtio_handle_notify 0 m)
  handle_notify-Drained =
      let loop = loop-Rounds (2 ^ 16) avail_idx false m li lm (omega arith) in
      rw (doorbell m avail_idx en q0 q1 r e) (Rounds-Drained avail_idx m _ loop)

  -- The same doorbell changes nothing when no request is new, and raises the line of the interrupt
  -- controller when there is one and its slot can be read.
  pub handle_notify-interrupts :
      (m.virtio.last_avail_idx ≡ avail_idx → virtio_handle_notify 0 m ≡ m)
      × (m.virtio.last_avail_idx ≢ avail_idx
          → (h : ℕ) → read_phys_u16 (next_slot m) m ≡ some h
          → (virtio_handle_notify 0 m).plic.source_pending1 ≡ true)
  handle_notify-interrupts = (
    λ same. rw (doorbell m avail_idx en q0 q1 r e, sym same, loop-done (2 ^ 16) false m) refl,
    λ ne h slot.
        rw (doorbell m avail_idx en q0 q1 r e, loop-takes (2 ^ 16 - 1) avail_idx h m ne slot)
          (raise-pending _),
  )
