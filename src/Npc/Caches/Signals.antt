-- ===== src/Npc/Caches/Signals.antt =====
-- What passes between the caches and the models of memory_models.h.
use triathlon.Prelude.{ℕ, Bool, List}

-- The signals of one cache that the models read.
pub record Wires : Type 0 where
  pub miss_req_valid_o : Bool
  pub miss_req_ready_i : Bool
  pub miss_req_paddr_o : ℕ
  pub miss_req_victim_way_o : ℕ
  pub refill_ready_o : Bool
  pub wb_req_valid_o : Bool
  pub wb_req_ready_i : Bool
  pub wb_req_paddr_o : ℕ
  pub wb_req_data_o : List ℕ

-- The signals that the models drive.
pub record Refill : Type 0 where
  pub refill_valid_i : Bool
  pub refill_paddr_i : ℕ
  pub refill_way_i : ℕ
  pub refill_data_i : List ℕ
