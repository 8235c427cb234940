-- ===== src/Npc/Profiler/Stalls.antt =====
-- The kinds of npc/csrc/lib/profile_collector_stall.cpp: of a stall, and of an empty front end.
use triathlon.Prelude.{ℕ, Bool, not, ◌&&◌, ◌||◌, ◌==◌, if◌then◌else◌, List, [], ◌∷◌}
use triathlon.Npc.Profiler.Signals.{Top}

-- The early returns of a function: the first result whose condition holds, or the last one.
unfoldable pub first_of : {A : Type 0} → List (Bool × A) → A → A
first_of [] last = last
first_of ((condition, x) ∷ rest) last = if condition then x else first_of rest last

pub data StallKindIdx : Type 0 where
  flush_recovery icache_miss_wait dcache_miss_wait rob_backpressure : StallKindIdx
  frontend_empty decode_blocked lsu_req_blocked stall_other : StallKindIdx

pub data FrontendEmptyDetailIdx : Type 0 where
  fe_no_req fe_wait_icache_rsp_hit_latency fe_wait_icache_rsp_miss_wait : FrontendEmptyDetailIdx
  fe_rsp_blocked_by_fq_full fe_wait_ibuffer_consume : FrontendEmptyDetailIdx
  fe_redirect_recovery fe_rsp_capture_bubble fe_has_data_decode_gap : FrontendEmptyDetailIdx
  fe_other fe_drop_stale_rsp fe_no_req_reqq_empty fe_no_req_inf_full : FrontendEmptyDetailIdx
  fe_no_req_storage_budget fe_no_req_flush_block fe_no_req_other : FrontendEmptyDetailIdx
  fe_req_fire_no_inflight fe_rsp_no_inflight : FrontendEmptyDetailIdx
  fe_fq_nonempty_no_fe_valid fe_req_ready_no_fire : FrontendEmptyDetailIdx

-- The values of the two enums.
unfoldable pub stall_index : StallKindIdx → ℕ
stall_index flush_recovery = 0
stall_index icache_miss_wait = 1
stall_index dcache_miss_wait = 2
stall_index rob_backpressure = 3
stall_index frontend_empty = 4
stall_index decode_blocked = 5
stall_index lsu_req_blocked = 6
stall_index stall_other = 7

unfoldable pub detail_index : FrontendEmptyDetailIdx → ℕ
detail_index fe_no_req = 0
detail_index fe_wait_icache_rsp_hit_latency = 1
detail_index fe_wait_icache_rsp_miss_wait = 2
detail_index fe_rsp_blocked_by_fq_full = 3
detail_index fe_wait_ibuffer_consume = 4
detail_index fe_redirect_recovery = 5
detail_index fe_rsp_capture_bubble = 6
detail_index fe_has_data_decode_gap = 7
detail_index fe_other = 8
detail_index fe_drop_stale_rsp = 9
detail_index fe_no_req_reqq_empty = 10
detail_index fe_no_req_inf_full = 11
detail_index fe_no_req_storage_budget = 12
detail_index fe_no_req_flush_block = 13
detail_index fe_no_req_other = 14
detail_index fe_req_fire_no_inflight = 15
detail_index fe_rsp_no_inflight = 16
detail_index fe_fq_nonempty_no_fe_valid = 17
detail_index fe_req_ready_no_fire = 18

-- The bundled signal when its bus is valid, else the signal of its own.
unfoldable pub classify_stall_cycle : Top → StallKindIdx
classify_stall_cycle t =
    let rob_ready =
      if t.dbg_pipe_bus_valid_o then t.dbg_pipe_bus_rob_ready_o else t.dbg_rob_ready_o in
    let dec_valid =
      if t.dbg_pipe_bus_valid_o then t.dbg_pipe_bus_dec_valid_o else t.dbg_dec_valid_o in
    let dec_ready =
      if t.dbg_pipe_bus_valid_o then t.dbg_pipe_bus_dec_ready_o else t.dbg_dec_ready_o in
    let lsu_issue_valid =
      if t.dbg_mem_bus_valid_o then t.dbg_mem_bus_lsu_issue_valid_o else t.dbg_lsu_issue_valid_o in
    let lsu_req_ready =
      if t.dbg_mem_bus_valid_o then t.dbg_mem_bus_lsu_req_ready_o else t.dbg_lsu_req_ready_o in
    first_of
      ((t.backend_flush_o, flush_recovery)
        ∷ (t.icache_miss_req_valid_o, icache_miss_wait)
        ∷ (t.dcache_miss_req_valid_o, dcache_miss_wait)
        ∷ (not rob_ready, rob_backpressure)
        ∷ (not dec_valid, frontend_empty)
        ∷ (dec_valid && not dec_ready, decode_blocked)
        ∷ (lsu_issue_valid && not lsu_req_ready, lsu_req_blocked)
        ∷ [])
      stall_other

-- The fetch unit asks for nothing and has nothing queued.
unfoldable pub no_request : Top → FrontendEmptyDetailIdx
no_request t =
    first_of
      ((t.dbg_ifu_block_flush_o, fe_no_req_flush_block)
        ∷ (t.dbg_ifu_block_reqq_empty_o, fe_no_req_reqq_empty)
        ∷ (t.dbg_ifu_block_inf_full_o, fe_no_req_inf_full)
        ∷ (t.dbg_ifu_block_storage_budget_o, fe_no_req_storage_budget)
        ∷ (not t.dbg_ifu_req_ready_o, fe_redirect_recovery)
        ∷ [])
      fe_no_req_other

unfoldable pub wait_icache : Top → FrontendEmptyDetailIdx
wait_icache t =
    if (t.dbg_icache_state_o == 2) || (t.dbg_icache_state_o == 3)
    then fe_wait_icache_rsp_miss_wait
    else fe_wait_icache_rsp_hit_latency

unfoldable pub classify_frontend_empty_cycle : Top → FrontendEmptyDetailIdx
classify_frontend_empty_cycle t =
    let fe_valid = if t.dbg_pipe_bus_valid_o then t.dbg_pipe_bus_fe_valid_o else t.dbg_fe_valid_o in
    first_of
      ((fe_valid && not t.dbg_fe_ready_o, fe_wait_ibuffer_consume)
        ∷ (fe_valid && t.dbg_fe_ready_o, fe_has_data_decode_gap)
        ∷ (
          t.dbg_ifu_req_inflight_o && t.dbg_ifu_rsp_valid_o && t.dbg_ifu_rsp_capture_o,
          fe_rsp_capture_bubble,
        )
        ∷ (t.dbg_ifu_drop_stale_rsp_o, fe_drop_stale_rsp)
        ∷ (
          t.dbg_ifu_rsp_valid_o && not t.dbg_ifu_rsp_capture_o && t.dbg_ifu_fq_full_o,
          fe_rsp_blocked_by_fq_full,
        )
        ∷ (t.dbg_ifu_req_inflight_o && not t.dbg_ifu_rsp_valid_o, wait_icache t)
        ∷ (
          not t.dbg_ifu_req_inflight_o && t.dbg_ifu_fq_empty_o && not t.dbg_ifu_req_valid_o,
          no_request t,
        )
        ∷ (
          not t.dbg_ifu_req_fire_o && t.dbg_ifu_req_valid_o && not t.dbg_ifu_req_ready_o,
          fe_redirect_recovery,
        )
        ∷ (
          t.dbg_ifu_req_fire_o && not t.dbg_ifu_req_inflight_o && not t.dbg_ifu_rsp_valid_o,
          fe_req_fire_no_inflight,
        )
        ∷ (
          t.dbg_ifu_rsp_valid_o && not t.dbg_ifu_rsp_capture_o && not t.dbg_ifu_req_inflight_o,
          fe_rsp_no_inflight,
        )
        ∷ (not t.dbg_ifu_fq_empty_o && not fe_valid, fe_fq_nonempty_no_fe_valid)
        ∷ (
          t.dbg_ifu_req_valid_o && t.dbg_ifu_req_ready_o && not t.dbg_ifu_req_fire_o,
          fe_req_ready_no_fire,
        )
        ∷ [])
      fe_other
