-- ===== src/Npc/Profiler/Tests.antt =====
-- The profiler on three idle cycles.
use triathlon.Prelude.{List, true, false, [], ◌∷◌, ◌≡◌, refl, arith}
use triathlon.Npc.Profiler.{Profile}
use triathlon.Npc.Profiler.Signals.{Top}
use triathlon.Npc.Profiler.Stalls.{classify_stall_cycle, first_of, frontend_empty, rob_backpressure}
use triathlon.Npc.Profiler.Details.{
  classify_decode_blocked_detail_cycle, gate_priority, needed_gate,
}
use triathlon.Npc.Profiler.Commits.{
  Commits, record_commit, count_previous, count_predicted, is_call_inst,
}
use triathlon.Npc.Profiler.Lag.{Commit, record_all, IsLagging, record_all-IsLagging}
use triathlon.Npc.Profiler.Tally.{IsTallied, run_stalled, run-IsTallied}

-- Nothing is valid and nothing is ready.
abbrev idle : Top
idle = record {
  dbg_bru_ready_not_issued_o = false;
  dbg_alu_ready_not_issued_o = false;
  dbg_rob_head_complete_o = false;
  dbg_bru_wb_head_hit_o = false;
  dbg_alu_wb_head_hit_o = false;
  dbg_pipe_bus_valid_o = false;
  dbg_mem_bus_valid_o = false;
  dbg_pipe_bus_rob_ready_o = false;
  dbg_rob_ready_o = false;
  dbg_pipe_bus_dec_valid_o = false;
  dbg_dec_valid_o = false;
  dbg_pipe_bus_dec_ready_o = false;
  dbg_dec_ready_o = false;
  dbg_mem_bus_lsu_issue_valid_o = false;
  dbg_lsu_issue_valid_o = false;
  dbg_mem_bus_lsu_req_ready_o = false;
  dbg_lsu_req_ready_o = false;
  backend_flush_o = false;
  icache_miss_req_valid_o = false;
  dcache_miss_req_valid_o = false;
  dbg_pipe_bus_fe_valid_o = false;
  dbg_fe_valid_o = false;
  dbg_fe_ready_o = false;
  dbg_ifu_req_valid_o = false;
  dbg_ifu_req_ready_o = false;
  dbg_ifu_req_fire_o = false;
  dbg_ifu_req_inflight_o = false;
  dbg_ifu_rsp_valid_o = false;
  dbg_ifu_rsp_capture_o = false;
  dbg_ifu_drop_stale_rsp_o = false;
  dbg_ifu_fq_full_o = false;
  dbg_ifu_fq_empty_o = false;
  dbg_ifu_block_flush_o = false;
  dbg_ifu_block_reqq_empty_o = false;
  dbg_ifu_block_inf_full_o = false;
  dbg_ifu_block_storage_budget_o = false;
  dbg_icache_state_o = 0;
  dbg_lsu_rs_head_has_rs2_o = false;
  dbg_lsu_rs_head_r2_ready_o = false;
  dbg_ren_src_from_pending_o = false;
  dbg_ren_src_count_o = 0;
  dbg_ren_fire_o = false;
  dbg_ren_sel_count_o = 0;
  dbg_lsu_grp_lane_busy_o = 0;
  dbg_lsu_grp_alloc_fire_o = false;
  dbg_lsu_grp_ld_owner_o = 0;
  dbg_dc_store_wait_same_line_o = false;
  dbg_dc_store_wait_mshr_full_o = false;
  dbg_sb_alloc_req_o = 0;
  dbg_sb_alloc_ready_o = false;
  dbg_lsu_rs_head_valid_o = false;
  dbg_lsu_rs_head_has_rs1_o = false;
  dbg_lsu_rs_head_r1_ready_o = false;
  dbg_lsu_rs_busy_o = 0;
  dbg_lsu_rs_ready_o = 0;
  dbg_rob_q2_valid_o = false;
  dbg_rob_q2_complete_o = false;
  dbg_gate_alu_o = false;
  dbg_gate_bru_o = false;
  dbg_gate_lsu_o = false;
  dbg_gate_mdu_o = false;
  dbg_gate_csr_o = false;
  dbg_need_alu_o = 0;
  dbg_need_bru_o = 0;
  dbg_need_lsu_o = 0;
  dbg_need_mdu_o = 0;
  dbg_need_csr_o = 0;
  dbg_lsu_state_o = 0;
  dbg_lsu_ld_fire_o = false;
  dbg_lsu_rsp_fire_o = false;
  dbg_rob_head_fu_o = 0;
  dbg_rob_head_is_store_o = false;
  dbg_sb_head_valid_o = false;
  dbg_sb_head_committed_o = false;
  dbg_sb_head_addr_valid_o = false;
  dbg_sb_head_data_valid_o = false;
  dbg_sb_dcache_req_valid_o = false;
  dbg_sb_dcache_req_ready_o = false;
  dbg_lsu_ld_req_valid_o = false;
  dbg_lsu_ld_req_ready_o = false;
  dbg_lsu_ld_rsp_valid_o = false;
  dbg_lsu_ld_rsp_ready_o = false;
  dbg_dc_mshr_full_o = false;
  dbg_dc_mshr_alloc_ready_o = false;
  dcache_miss_req_ready_i = false;
  dbg_rob_count_o = 0;
  dbg_ren_ready_o = false;
  dbg_alu_issue_any_o = false;
  dbg_bru_valid_o = false;
}

-- The reorder buffer has room and the decoder waits.
abbrev starved : Top
starved = record idle { dbg_rob_ready_o = true; dbg_ifu_fq_empty_o = true }

abbrev zeroed : Profile
zeroed = record {
  stall_cycle_hist = λ i. 0;
  stall_frontend_empty_hist = λ i. 0;
  stall_decode_blocked_detail_hist = [];
  stall_rob_backpressure_detail_hist = [];
  stall_other_detail_hist = [];
  branch_ready_not_issued_cycles = 0;
  alu_ready_not_issued_cycles = 0;
  complete_not_visible_cycles = 0;
}

zeroed-IsTallied : IsTallied 0 zeroed
unfolding IsTallied
zeroed-IsTallied = (refl, refl, refl, refl, refl)

idle-kind : classify_stall_cycle idle ≡ rob_backpressure
unfolding classify_stall_cycle first_of
idle-kind = refl

starved-kind : classify_stall_cycle starved ≡ frontend_empty
unfolding classify_stall_cycle first_of
starved-kind = refl

-- A gate that is needed comes before one that is only closed.
needed-first :
    classify_decode_blocked_detail_cycle 4 (record idle { dbg_need_mdu_o = 1 })
    ≡ "dispatch_gate_mdu"
unfolding classify_decode_blocked_detail_cycle first_of gate_priority needed_gate
needed-first = refl

run-IsTallied_example : IsTallied 3 (run_stalled 4 (idle ∷ starved ∷ starved ∷ []) zeroed)
run-IsTallied_example =
    run-IsTallied 4 (idle ∷ starved ∷ starved ∷ []) zeroed 0 (omega arith) zeroed-IsTallied

abbrev no_commits : Commits
no_commits = record {
  total_commits = 0;
  commit_pc_hist = λ i. 0;
  commit_inst_hist = λ i. 0;
  has_prev_commit = false;
  prev_commit_pc = 0;
  prev_commit_inst = 0;
  control_branch_count = 0;
  control_branch_taken_count = 0;
  control_jal_count = 0;
  control_jalr_count = 0;
  control_call_count = 0;
  control_ret_count = 0;
  pred_cond_total = 0;
  pred_ret_total = 0;
  pred_jump_total = 0;
  pred_jump_direct_total = 0;
  pred_jump_indirect_total = 0;
  pred_call_total = 0;
  last_commit_pc = 0;
  last_commit_inst = 0;
  last_commit_decoded_inst = 0;
  last_commit_is_rvc = false;
}

no_commits-IsLagging : IsLagging no_commits
unfolding IsLagging
no_commits-IsLagging = (refl, refl, refl, refl)

-- `jal ra, 8`, then `ret`.
abbrev call_and_return : List Commit
call_and_return =
    record { pc = 0x80000000; raw_inst = 0x008000EF; decoded_inst = 0x008000EF; is_rvc = false }
    ∷ record { pc = 0x80000008; raw_inst = 0x8082; decoded_inst = 0x00008067; is_rvc = true }
    ∷ []

call-counted : (record_all call_and_return no_commits).control_call_count ≡ 1
unfolding record_all record_commit count_previous count_predicted is_call_inst
call-counted = refl

-- A two-byte branch that falls through counts as taken.
fall_through-taken :
    (record_commit 0x80000002 1 1 true
      (record_commit 0x80000000 0xC101 0x00050063 true no_commits)).control_branch_taken_count
    ≡ 1
unfolding record_commit count_previous count_predicted
fall_through-taken = refl

record_all-IsLagging_example : IsLagging (record_all call_and_return no_commits)
record_all-IsLagging_example = record_all-IsLagging call_and_return no_commits no_commits-IsLagging
