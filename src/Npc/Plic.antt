-- ===== src/Npc/Plic.antt =====
-- The interrupt controller of memory_models.h, which has one source.
use Prim.Native.Nat.{bit_and}
use triathlon.Prelude.{ℕ, Bool, true, false, not, ◌&&◌, ◌==◌, ltb, if◌then◌else◌}
use triathlon.Prelude.Words.{◌>>◌, truth}
use triathlon.Npc.State.{Plic}
pub mod Gateway

unfoldable pub plic_source1_enabled : Plic → Bool
plic_source1_enabled p = truth (bit_and (p.enable_m >> 1) 1) && ltb p.threshold_m p.priority1

unfoldable pub plic_source1_eligible : Plic → Bool
plic_source1_eligible p = p.pending1 && plic_source1_enabled p && not p.claimed1

unfoldable pub refresh_plic_pending : Plic → Plic
refresh_plic_pending p =
    if p.source_pending1 && not p.claimed1 then record p { pending1 = true } else p

unfoldable pub plic_pending_bits : Plic → ℕ
plic_pending_bits p = if p.pending1 then 2 else 0

unfoldable pub set_plic_source_pending : ℕ → Bool → Plic → Plic
set_plic_source_pending source_id pending p =
    if not (source_id == 1)
    then p
    else if not pending
    then record p {
      source_pending1 = pending;
      pending1 = false;
      claimed1 = if not p.claimed1 then false else p.claimed1;
    }
    else refresh_plic_pending (record p { source_pending1 = pending })

unfoldable pub plic_irq_pending : Plic → Bool
plic_irq_pending p = plic_source1_eligible p

unfoldable pub plic_claim_peek : Plic → ℕ
plic_claim_peek p = if plic_source1_eligible p then 1 else 0

unfoldable pub plic_claim_read : Plic → ℕ × Plic
plic_claim_read p =
    if not (plic_source1_eligible p)
    then (0, p)
    else (1, record p { pending1 = false; claimed1 = true })

unfoldable pub plic_complete_write : ℕ → Plic → Plic
plic_complete_write value p =
    if not (value == 1) then p else refresh_plic_pending (record p { claimed1 = false })
