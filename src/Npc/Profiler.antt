-- ===== src/Npc/Profiler.antt =====
-- The account of the cycles that retire nothing, npc/csrc/lib/profile_collector_stall.cpp.
use Prim.Native.String.{String}
use text.Mathlib.Text.{◌==◌ as ◌===◌}
use triathlon.Prelude.{ℕ, ◌+◌, Bool, true, false, not, ◌&&◌, ◌||◌, if◌then◌else◌, List, [], ◌∷◌}
use triathlon.Prelude.Words.{u64, b2n}
use triathlon.Prelude.Store.{Store, update}
pub mod Signals
pub mod Stalls
pub mod Details
pub mod Others
pub mod Tally
pub mod Commits
pub mod Lag
mod Tests
use triathlon.Npc.Profiler.Signals.{Top}
use triathlon.Npc.Profiler.Stalls.{
  StallKindIdx, flush_recovery, icache_miss_wait, dcache_miss_wait, rob_backpressure,
  frontend_empty, decode_blocked, lsu_req_blocked, stall_other, stall_index, detail_index,
  classify_stall_cycle, classify_frontend_empty_cycle,
}
use triathlon.Npc.Profiler.Details.{
  classify_decode_blocked_detail_cycle, classify_rob_backpressure_detail_cycle,
}
use triathlon.Npc.Profiler.Others.{classify_other_detail_cycle}

-- An `unordered_map` from labels to counts.
abbrev pub Hist : Type 0
Hist = List (String × ℕ)

-- The counters of `ProfileCollector` that a cycle without a commit moves.
pub record Profile : Type 0 where
  pub stall_cycle_hist : Store
  pub stall_frontend_empty_hist : Store
  pub stall_decode_blocked_detail_hist : Hist
  pub stall_rob_backpressure_detail_hist : Hist
  pub stall_other_detail_hist : Hist
  pub branch_ready_not_issued_cycles : ℕ
  pub alu_ready_not_issued_cycles : ℕ
  pub complete_not_visible_cycles : ℕ

-- `hist[i]++` of an array.
unfoldable pub bump_at : ℕ → Store → Store
bump_at i hist = update hist i (u64 (hist i + 1))

-- `hist[label]++` of a map: a label that is missing starts from 0.
unfoldable pub bump : String → Hist → Hist
bump label [] = (label, 1) ∷ []
bump label ((key, count) ∷ rest) =
    if key === label then (key, u64 (count + 1)) ∷ rest else (key, count) ∷ bump label rest

-- The detail of a kind.
unfoldable pub count_detail : StallKindIdx → ℕ → Top → Profile → Profile
count_detail frontend_empty cfg t p = record p {
  stall_frontend_empty_hist =
      bump_at (detail_index (classify_frontend_empty_cycle t)) p.stall_frontend_empty_hist;
}
count_detail decode_blocked cfg t p = record p {
  stall_decode_blocked_detail_hist =
      bump (classify_decode_blocked_detail_cycle cfg t) p.stall_decode_blocked_detail_hist;
}
count_detail rob_backpressure cfg t p = record p {
  stall_rob_backpressure_detail_hist =
      bump (classify_rob_backpressure_detail_cycle t) p.stall_rob_backpressure_detail_hist;
}
count_detail stall_other cfg t p = record p {
  stall_other_detail_hist = bump (classify_other_detail_cycle t) p.stall_other_detail_hist;
}
count_detail flush_recovery cfg t p = p
count_detail icache_miss_wait cfg t p = p
count_detail dcache_miss_wait cfg t p = p
count_detail lsu_req_blocked cfg t p = p

unfoldable pub count_waits : Top → Profile → Profile
count_waits t p = record p {
  branch_ready_not_issued_cycles =
      u64 (p.branch_ready_not_issued_cycles + b2n t.dbg_bru_ready_not_issued_o);
  alu_ready_not_issued_cycles =
      u64 (p.alu_ready_not_issued_cycles + b2n t.dbg_alu_ready_not_issued_o);
  complete_not_visible_cycles = u64 (
      p.complete_not_visible_cycles
      + b2n
          (not t.dbg_rob_head_complete_o && (t.dbg_bru_wb_head_hit_o || t.dbg_alu_wb_head_hit_o)));
}

unfoldable pub count_kind : StallKindIdx → ℕ → Top → Profile → Profile
count_kind kind cfg t p =
    count_detail kind cfg t
      (record p { stall_cycle_hist = bump_at (stall_index kind) p.stall_cycle_hist })

-- The counters of the call; the trace that it may print is left out.
unfoldable pub on_no_commit_cycle : ℕ → Top → Profile → Profile
on_no_commit_cycle cfg t p = count_waits t (count_kind (classify_stall_cycle t) cfg t p)
