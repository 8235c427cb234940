-- ===== src/Npc/Caches/Icache.antt =====
-- `ICacheModel` of memory_models.h.
use triathlon.Prelude.{ℕ, ◌-◌, Bool, true, false, not, ◌&&◌, ltb, if◌then◌else◌, List, replicate}
use triathlon.Npc.State.{UnifiedMem}
use triathlon.Npc.Bus.{fill_line}
use triathlon.Npc.Caches.Signals.{Wires, Refill}

pub record IcacheModel : Type 0 where
  pub pending : Bool
  pub delay : ℕ
  pub miss_addr : ℕ
  pub miss_way : ℕ
  pub refill_pulse : Bool
  pub line_words : List ℕ

unfoldable pub reset : IcacheModel → IcacheModel
reset c = record c { pending = false; delay = 0; miss_addr = 0; miss_way = 0; refill_pulse = false }

unfoldable pub drive : IcacheModel → Refill
drive c =
    if c.refill_pulse
    then record {
      refill_valid_i = true;
      refill_paddr_i = c.miss_addr;
      refill_way_i = c.miss_way;
      refill_data_i = c.line_words;
    }
    else record {
      refill_valid_i = false;
      refill_paddr_i = 0;
      refill_way_i = 0;
      refill_data_i = replicate 8 0;
    }

-- A request, which starts over whatever was pending.
unfoldable pub accept : UnifiedMem → Wires → IcacheModel → IcacheModel
accept m w c =
    if w.miss_req_valid_o && w.miss_req_ready_i
    then record c {
      pending = true;
      delay = 2;
      miss_addr = w.miss_req_paddr_o;
      miss_way = w.miss_req_victim_way_o;
      line_words = fill_line w.miss_req_paddr_o m;
    }
    else c

unfoldable pub advance : Wires → IcacheModel → IcacheModel
advance w c =
    if not c.pending
    then c
    else if ltb 0 c.delay
    then record c { delay = c.delay - 1 }
    else if w.refill_ready_o
    then record c { refill_pulse = true; pending = false }
    else c

unfoldable pub observe : Bool → UnifiedMem → Wires → IcacheModel → IcacheModel
observe rst_ni m w c =
    if not rst_ni then reset c else advance w (accept m w (record c { refill_pulse = false }))
