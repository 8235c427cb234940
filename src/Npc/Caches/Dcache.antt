-- ===== src/Npc/Caches/Dcache.antt =====
-- `DCacheModel` of memory_models.h.
use triathlon.Prelude.{
  ℕ, ◌-◌, Bool, true, false, not, ◌&&◌, ◌==◌, ltb, if◌then◌else◌, List, [], ◌∷◌, ◌++◌, map,
  replicate,
}
use triathlon.Npc.State.{UnifiedMem}
use triathlon.Npc.Bus.{fill_line, write_line}
use triathlon.Npc.Caches.Signals.{Wires, Refill}

pub record MissTxn : Type 0 where
  pub delay : ℕ
  pub miss_addr : ℕ
  pub miss_way : ℕ
  pub line_words : List ℕ

abbrev pub no_txn : MissTxn
no_txn = record { delay = 0; miss_addr = 0; miss_way = 0; line_words = replicate 8 0 }

-- The front of the queue is the head of the list.
pub record DcacheModel : Type 0 where
  pub pending_q : List MissTxn
  pub refill_pulse : Bool
  pub refill_txn : MissTxn

unfoldable pub reset : DcacheModel → DcacheModel
reset c = record { pending_q = []; refill_pulse = false; refill_txn = no_txn }

unfoldable pub drive : DcacheModel → Refill
drive c =
    if c.refill_pulse
    then record {
      refill_valid_i = true;
      refill_paddr_i = c.refill_txn.miss_addr;
      refill_way_i = c.refill_txn.miss_way;
      refill_data_i = c.refill_txn.line_words;
    }
    else record {
      refill_valid_i = false;
      refill_paddr_i = 0;
      refill_way_i = 0;
      refill_data_i = replicate 8 0;
    }

-- The transactions that a cycle's request adds.
unfoldable pub requested : UnifiedMem → Wires → List MissTxn
requested m w =
    if w.miss_req_valid_o && w.miss_req_ready_i
    then record {
      delay = 2;
      miss_addr = w.miss_req_paddr_o;
      miss_way = w.miss_req_victim_way_o;
      line_words = fill_line w.miss_req_paddr_o m;
    }
      ∷ []
    else []

unfoldable pub count_down : MissTxn → MissTxn
count_down t = if ltb 0 t.delay then record t { delay = t.delay - 1 } else t

-- The front of the queue is answered when its time has come and the cache is ready.
unfoldable pub answer : Bool → List MissTxn → DcacheModel → DcacheModel
answer ready [] c = record c { pending_q = [] }
answer ready (t ∷ ts) c =
    if (t.delay == 0) && ready
    then record { pending_q = ts; refill_pulse = true; refill_txn = t }
    else record c { pending_q = t ∷ ts }

-- The queue and the pulse.
unfoldable pub observe : Bool → UnifiedMem → Wires → DcacheModel → DcacheModel
observe rst_ni m w c =
    if not rst_ni
    then reset c
    else answer w.refill_ready_o (map count_down (c.pending_q ++ requested m w))
        (record c { refill_pulse = false })

-- The line that is written back.
unfoldable pub write_back : Bool → Wires → UnifiedMem → UnifiedMem
write_back rst_ni w m =
    if not rst_ni
    then m
    else if w.wb_req_valid_o && w.wb_req_ready_i
    then write_line w.wb_req_paddr_o w.wb_req_data_o m
    else m
