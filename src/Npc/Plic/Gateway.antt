-- ===== src/Npc/Plic/Gateway.antt =====
-- What the interrupt controller of memory_models.h promises: a gateway for one level-triggered source.
use Prim.Native.Nat.{bit_and}
use triathlon.Prelude.{
  ℕ, Bool, true, false, not, ◌&&◌, ◌==◌, ltb, if◌then◌else◌, List, [], ◌∷◌, ◌≡◌, refl, sym, ap₂,
  arith, zero, suc, ◌++◌, replicate, ◌<◌, lt→ltb,
}
use triathlon.Prelude.Words.{◌>>◌, truth}
use triathlon.Npc.State.{Plic}
use triathlon.Npc.Plic.{
  plic_source1_enabled, plic_source1_eligible, refresh_plic_pending, set_plic_source_pending,
  plic_irq_pending, plic_claim_read, plic_complete_write,
}

-- What the devices and the processor do to the controller.
pub data PlicOp : Type 0 where
  set_source : ℕ → Bool → PlicOp
  claim : PlicOp
  complete : ℕ → PlicOp
  set_priority : ℕ → PlicOp
  set_enable : ℕ → PlicOp
  set_threshold : ℕ → PlicOp

-- The state after an operation, and the number that the operation reads (0 if it reads none).
unfoldable pub plic_step : PlicOp → Plic → ℕ × Plic
plic_step (set_source id level) p = (0, set_plic_source_pending id level p)
plic_step claim p = plic_claim_read p
plic_step (complete value) p = (0, plic_complete_write value p)
plic_step (set_priority value) p = (0, record p { priority1 = bit_and value 7 })
plic_step (set_enable value) p = (0, record p { enable_m = value })
plic_step (set_threshold value) p = (0, record p { threshold_m = bit_and value 7 })

-- What can be seen along a sequence of operations: each number read, and the interrupt line after it.
unfoldable pub plic_trace : List PlicOp → Plic → List (ℕ × Bool)
plic_trace [] p = []
plic_trace (o ∷ os) p = let (n, p') = plic_step o p in (n, plic_irq_pending p') ∷ plic_trace os p'

-- The specification has no pending bit: the source is waiting while its line is high and nobody serves it.
pub record Gateway : Type 0 where
  pub line : Bool
  pub in_service : Bool
  pub enabled : Bool
  pub priority : ℕ
  pub threshold : ℕ

unfoldable pub waiting : Gateway → Bool
waiting g = g.line && not g.in_service && g.enabled && ltb g.threshold g.priority

unfoldable pub gateway_step : PlicOp → Gateway → ℕ × Gateway
gateway_step (set_source id level) g = (0, if id == 1 then record g { line = level } else g)
gateway_step claim g = if waiting g then (1, record g { in_service = true }) else (0, g)
gateway_step (complete value) g = (0, if value == 1 then record g { in_service = false } else g)
gateway_step (set_priority value) g = (0, record g { priority = bit_and value 7 })
gateway_step (set_enable value) g = (0, record g { enabled = truth (bit_and (value >> 1) 1) })
gateway_step (set_threshold value) g = (0, record g { threshold = bit_and value 7 })

unfoldable pub gateway_trace : List PlicOp → Gateway → List (ℕ × Bool)
gateway_trace [] g = []
gateway_trace (o ∷ os) g = let (n, g') = gateway_step o g in (n, waiting g') ∷ gateway_trace os g'

-- The view that forgets the pending bit.
unfoldable pub gateway : Plic → Gateway
gateway p = record {
  line = p.source_pending1;
  in_service = p.claimed1;
  enabled = truth (bit_and (p.enable_m >> 1) 1);
  priority = p.priority1;
  threshold = p.threshold_m;
}

-- The pending bit is what the line and the claim say.
unfoldable pub IsGated : Plic → Type 0
IsGated p = p.pending1 ≡ (p.source_pending1 && not p.claimed1)

set_source-IsGated :
    (id : ℕ) (level : Bool) (p : Plic) → IsGated p → IsGated (set_plic_source_pending id level p)
unfolding IsGated set_plic_source_pending refresh_plic_pending
set_source-IsGated id level p h = ground arith

claim-IsGated : (p : Plic) → IsGated p → IsGated ((plic_claim_read p).1)
unfolding IsGated plic_claim_read
claim-IsGated p h = ground arith

complete-IsGated : (n : ℕ) (p : Plic) → IsGated p → IsGated (plic_complete_write n p)
unfolding IsGated plic_complete_write refresh_plic_pending
complete-IsGated n p h = ground arith

pub step-IsGated : (o : PlicOp) (p : Plic) → IsGated p → IsGated ((plic_step o p).1)
unfolding plic_step IsGated
step-IsGated (set_source id level) p h = set_source-IsGated id level p h
step-IsGated claim p h = claim-IsGated p h
step-IsGated (complete n) p h = complete-IsGated n p h
step-IsGated (set_priority n) p h = h
step-IsGated (set_enable n) p h = h
step-IsGated (set_threshold n) p h = h

irq-waiting : (p : Plic) → IsGated p → plic_irq_pending p ≡ waiting (gateway p)
unfolding IsGated waiting gateway plic_irq_pending plic_source1_eligible plic_source1_enabled
irq-waiting p h = ground arith

-- One operation reads the same number on both sides, and the views of the results agree.
abbrev Simulates : PlicOp → Plic → Type 0
Simulates o p =
    ((plic_step o p).0 ≡ (gateway_step o (gateway p)).0)
    × (gateway ((plic_step o p).1) ≡ (gateway_step o (gateway p)).1)

set_source-Simulates : (id : ℕ) (level : Bool) (p : Plic) → Simulates (set_source id level) p
unfolding plic_step gateway_step gateway set_plic_source_pending refresh_plic_pending
set_source-Simulates id level p = (refl, ground arith)

claim-Simulates : (p : Plic) → IsGated p → Simulates claim p
unfolding plic_step gateway_step gateway plic_claim_read plic_irq_pending
claim-Simulates p h = rw (irq-waiting p h) (ground arith)

complete-Simulates : (n : ℕ) (p : Plic) → Simulates (complete n) p
unfolding plic_step gateway_step gateway plic_complete_write refresh_plic_pending
complete-Simulates n p = (refl, ground arith)

step-Simulates : (o : PlicOp) (p : Plic) → IsGated p → Simulates o p
unfolding plic_step gateway_step gateway
step-Simulates (set_source id level) p h = set_source-Simulates id level p
step-Simulates claim p h = claim-Simulates p h
step-Simulates (complete n) p h = complete-Simulates n p
step-Simulates (set_priority n) p h = (refl, refl)
step-Simulates (set_enable n) p h = (refl, refl)
step-Simulates (set_threshold n) p h = (refl, refl)

-- The interrupt controller implements the level-triggered gateway: from any state whose pending
-- bit is set exactly when the line is high and no claim is open, and along any sequence of line
-- changes, claims, completions and settings, every number that is read and the interrupt line after
-- every operation are those of the specification.
pub plic-refines :
    (os : List PlicOp) (p : Plic) → IsGated p → plic_trace os p ≡ gateway_trace os (gateway p)
unfolding plic_trace gateway_trace
plic-refines [] p h = refl
plic-refines (o ∷ os) p h =
    let next = step-IsGated o p h in
    let (read, view) = step-Simulates o p h in
    rw (sym read, irq-waiting _ next, plic-refines os _ next, view) refl

Ready : Gateway → Type 0
Ready g = (g.line ≡ true) × (g.enabled ≡ true) × (g.threshold < g.priority)

-- While the source is served, raising its line changes nothing, and the completion lets it interrupt.
served :
    (n : ℕ) (g : Gateway)
    → g.in_service ≡ true
    → Ready g
    → gateway_trace (replicate n (set_source 1 true) ++ (complete 1 ∷ [])) g
      ≡ replicate n (0, false) ++ ((0, true) ∷ [])
unfolding gateway_trace gateway_step waiting Ready
served zero g s (l, e, t) = rw (l, e, lt→ltb _ _ t) refl
served (suc n) g s (l, e, t) =
    ap₂ (λ o os. o ∷ os) (rw s refl) (served n (record g { line = true }) s (refl, e, t))

-- A line that stays high is not lost. When the source is high, enabled above the threshold and not
-- claimed, the claim reads 1 and silences it, it stays silent however often the device raises the
-- line during the service, and the completion makes it interrupt again.
pub complete-reraises :
    (n : ℕ) (p : Plic)
    → IsGated p
    → p.source_pending1 ≡ true
    → p.claimed1 ≡ false
    → plic_source1_enabled p ≡ true
    → plic_trace (claim ∷ replicate n (set_source 1 true) ++ (complete 1 ∷ [])) p
      ≡ (1, false) ∷ replicate n (0, false) ++ ((0, true) ∷ [])
unfolding gateway_trace gateway_step waiting Ready gateway plic_source1_enabled
complete-reraises n p h s c e =
    rw (plic-refines _ p h, wait)
      (ap₂ (λ o os. o ∷ os) (rw s refl) (served n _ refl (s, on.0, on.1)))
  where
    on : (truth (bit_and (p.enable_m >> 1) 1) ≡ true) × (p.threshold_m < p.priority1)
    on = (ground arith, ground arith)

    wait : waiting (gateway p) ≡ true
    wait = ground arith
