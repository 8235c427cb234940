-- ===== src/Npc/Virtio/Ring.antt =====
-- The queue in guest memory: descriptors, chains of them, and the used ring, of memory_models.h.
use Prim.Native.Nat.{bit_and}
use triathlon.Prelude.{
  ℕ, zero, suc, ◌+◌, ◌*◌, ◌%◌, Bool, true, false, not, ◌||◌, ◌==◌, leb, if◌then◌else◌, Option, none,
  some, ◌>>=◌, List, [], ◌∷◌,
}
use triathlon.Prelude.Words.{u16, u64, truth}
use triathlon.Prelude.Store.{Store, update}
use triathlon.Npc.State.{UnifiedMem}
use triathlon.Npc.Phys.{read_phys_u16, read_phys_u32, read_phys_u64, write_phys_u16, write_phys_u32}

pub record VirtqDesc : Type 0 where
  pub addr : ℕ
  pub len : ℕ
  pub flags : ℕ
  pub next : ℕ

abbrev pub virtio_queue_num_max : ℕ
virtio_queue_num_max = 128

unfoldable pub has_next : VirtqDesc → Bool
has_next d = truth (bit_and d.flags 1)

unfoldable pub dev_write : VirtqDesc → Bool
dev_write d = truth (bit_and d.flags 2)

unfoldable pub virtio_read_desc : ℕ → UnifiedMem → Option VirtqDesc
virtio_read_desc index m =
    if (m.virtio.queue_num == 0) || leb m.virtio.queue_num index then none else (do
      addr ← read_phys_u64 (u64 (m.virtio.queue_desc + index * 16)) m
      len ← read_phys_u32 (u64 (m.virtio.queue_desc + index * 16 + 8)) m
      flags ← read_phys_u16 (u64 (m.virtio.queue_desc + index * 16 + 12)) m
      next ← read_phys_u16 (u64 (m.virtio.queue_desc + index * 16 + 14)) m
      some (record { addr = addr; len = len; flags = flags; next = next }))

-- The loop of `virtio_process_blk_request` that follows a chain, with `n` rounds left. `none` is a
-- descriptor out of range, seen before, or not readable.
unfoldable pub follow : ℕ → ℕ → Store → UnifiedMem → Option (List VirtqDesc)
follow zero cur visited m = some []
follow (suc n) cur visited m =
    if leb m.virtio.queue_num cur
    then none
    else if truth (visited cur)
    then none
    else elim (virtio_read_desc cur m) [
      | none ↦ none
      | some d ↦ elim (has_next d) [
        | false ↦ some (d ∷ [])
        | true ↦ elim (follow n d.next (update visited cur 1) m) [
          | none ↦ none
          | some ds ↦ some (d ∷ ds)
        ]
      ]
    ]

-- A chain from its head: nothing is visited yet.
unfoldable pub chain_from : ℕ → UnifiedMem → Option (List VirtqDesc)
chain_from head_idx m = follow virtio_queue_num_max head_idx (λ i. 0) m

-- The element that goes to slot `used_idx`, then the index that publishes it.
unfoldable pub put_used : ℕ → ℕ → ℕ → UnifiedMem → UnifiedMem
put_used used_idx head_idx used_len m =
    let elem = u64 (m.virtio.queue_used + 4 + used_idx % m.virtio.queue_num * 8) in
    let (ok, m1) = write_phys_u32 elem head_idx m in
    let (ok', m2) = write_phys_u32 (u64 (elem + 4)) used_len m1 in
    if not ok
    then m1
    else if not ok'
    then m2
    else (write_phys_u16 (u64 (m.virtio.queue_used + 2)) (u16 (used_idx + 1)) m2).1

unfoldable pub virtio_push_used : ℕ → ℕ → UnifiedMem → UnifiedMem
virtio_push_used head_idx used_len m =
    if m.virtio.queue_num == 0 then m else elim (read_phys_u16 (u64 (m.virtio.queue_used + 2)) m) [
      | none ↦ m
      | some used_idx ↦ put_used used_idx head_idx used_len m
    ]
