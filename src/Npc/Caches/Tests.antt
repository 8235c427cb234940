-- ===== src/Npc/Caches/Tests.antt =====
-- The data cache's model with two requests in its queue.
use triathlon.Prelude.{ℕ, true, false, List, [], ◌∷◌, ◌++◌, map, replicate, ◌≡◌, refl, arith}
use triathlon.Npc.Tests.{start}
use triathlon.Npc.Caches.Signals.{Wires}
use triathlon.Npc.Caches.Dcache.{MissTxn, DcacheModel, no_txn}
use triathlon.Npc.Caches.Fifo.{Cycle, after, deliveries, requests, request, deliveries-fifo}
use triathlon.Npc.Caches.Quiet.{quiet-delivers}

abbrev still : Wires
still = record {
  miss_req_valid_o = false;
  miss_req_ready_i = true;
  miss_req_paddr_o = 0;
  miss_req_victim_way_o = 0;
  refill_ready_o = true;
  wb_req_valid_o = false;
  wb_req_ready_i = true;
  wb_req_paddr_o = 0;
  wb_req_data_o = [];
}

abbrev asking : Wires
asking = record still { miss_req_valid_o = true; miss_req_paddr_o = 0x80000040 }

abbrev cycle : Wires → Cycle
cycle w = record { mem = start; wires = w }

abbrev miss : ℕ → MissTxn
miss addr = record { delay = 2; miss_addr = addr; miss_way = 1; line_words = replicate 8 7 }

abbrev busy : DcacheModel
busy = record {
  pending_q = miss 0x80000000 ∷ miss 0x80000020 ∷ [];
  refill_pulse = false;
  refill_txn = no_txn;
}

abbrev asked : List Cycle
asked = cycle asking ∷ cycle still ∷ []

deliveries-fifo_example :
    deliveries asked busy ++ map request ((after asked busy).pending_q)
    ≡ map request busy.pending_q ++ requests asked
deliveries-fifo_example = deliveries-fifo asked busy

abbrev waited : List Cycle
waited = replicate 3 (cycle still)

quiet-delivers_example :
    ((after waited busy).pending_q ≡ []) × (deliveries waited busy ≡ map request busy.pending_q)
quiet-delivers_example = quiet-delivers waited busy refl refl (omega arith)
