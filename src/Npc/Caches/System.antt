-- ===== src/Npc/Caches/System.antt =====
-- `MemSystem` of memory_models.h, and a clock cycle of the design with it.
use triathlon.Prelude.{ℕ, zero, suc, Bool, true}
use triathlon.Prelude.Words.{b2n}
use triathlon.Npc.State.{UnifiedMem}
use triathlon.Npc.Clint.{timer_irq_pending}
use triathlon.Npc.Plic.{plic_irq_pending}
use triathlon.Npc.Caches.Signals.{Wires, Refill}
use triathlon.Npc.Caches.Icache
use triathlon.Npc.Caches.Icache.{IcacheModel}
use triathlon.Npc.Caches.Dcache
use triathlon.Npc.Caches.Dcache.{DcacheModel}

pub record MemSystem : Type 0 where
  pub mem : UnifiedMem
  pub icache : IcacheModel
  pub dcache : DcacheModel

-- What is driven before a clock cycle; the ready signals are always up.
pub record Inputs : Type 0 where
  pub timer_irq_i : ℕ
  pub ext_irq_i : ℕ
  pub icache_miss_req_ready_i : Bool
  pub icache_refill : Refill
  pub dcache_miss_req_ready_i : Bool
  pub dcache_wb_req_ready_i : Bool
  pub dcache_refill : Refill

pub record Outputs : Type 0 where
  pub rst_ni : Bool
  pub icache : Wires
  pub dcache : Wires

unfoldable pub reset : MemSystem → MemSystem
reset s = record s { icache = Icache.reset s.icache; dcache = Dcache.reset s.dcache }

unfoldable pub drive : MemSystem → Inputs
drive s = record {
  timer_irq_i = b2n (timer_irq_pending s.mem.clint);
  ext_irq_i = b2n (plic_irq_pending s.mem.plic);
  icache_miss_req_ready_i = true;
  icache_refill = Icache.drive s.icache;
  dcache_miss_req_ready_i = true;
  dcache_wb_req_ready_i = true;
  dcache_refill = Dcache.drive s.dcache;
}

-- The instruction side is served before the data side writes its line back.
unfoldable pub observe : Outputs → MemSystem → MemSystem
observe o s = record {
  mem = Dcache.write_back o.rst_ni o.dcache s.mem;
  icache = Icache.observe o.rst_ni s.mem o.icache s.icache;
  dcache = Dcache.observe o.rst_ni s.mem o.dcache s.dcache;
}

-- The compiled design, on the states `D` that it can be in.
pub record Design (D : Type 0) : Type 0 where
  pub set_inputs : Inputs → D → D
  pub set_clk : ℕ → D → D
  pub set_rst : ℕ → D → D
  pub eval : D → D
  pub outputs : D → Outputs

module _ {D : Type 0} (top : Design D) where
  unfoldable pub tick : D × MemSystem → D × MemSystem
  tick (d, s) =
      let low = top.eval (top.set_clk 0 (top.set_inputs (drive s) d)) in
      let high = top.eval (top.set_clk 1 low) in (high, observe (top.outputs high) s)

  unfoldable pub ticks : ℕ → D × MemSystem → D × MemSystem
  ticks zero x = x
  ticks (suc n) x = ticks n (tick x)

  -- Five cycles in reset, two out of it.
  unfoldable pub reset_design : D × MemSystem → D × MemSystem
  reset_design (d, s) =
      let (d', s') = ticks 5 (top.set_rst 0 d, reset s) in ticks 2 (top.set_rst 1 d', s')
