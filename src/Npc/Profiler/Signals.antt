-- ===== src/Npc/Profiler/Signals.antt =====
-- The signals of `Vtb_triathlon` that profile_collector_stall.cpp classifies cycles by.
use triathlon.Prelude.{ℕ, Bool}

pub record Top : Type 0 where
  pub dbg_bru_ready_not_issued_o : Bool
  pub dbg_alu_ready_not_issued_o : Bool
  pub dbg_rob_head_complete_o : Bool
  pub dbg_bru_wb_head_hit_o : Bool
  pub dbg_alu_wb_head_hit_o : Bool
  pub dbg_pipe_bus_valid_o : Bool
  pub dbg_mem_bus_valid_o : Bool
  pub dbg_pipe_bus_rob_ready_o : Bool
  pub dbg_rob_ready_o : Bool
  pub dbg_pipe_bus_dec_valid_o : Bool
  pub dbg_dec_valid_o : Bool
  pub dbg_pipe_bus_dec_ready_o : Bool
  pub dbg_dec_ready_o : Bool
  pub dbg_mem_bus_lsu_issue_valid_o : Bool
  pub dbg_lsu_issue_valid_o : Bool
  pub dbg_mem_bus_lsu_req_ready_o : Bool
  pub dbg_lsu_req_ready_o : Bool
  pub backend_flush_o : Bool
  pub icache_miss_req_valid_o : Bool
  pub dcache_miss_req_valid_o : Bool
  pub dbg_pipe_bus_fe_valid_o : Bool
  pub dbg_fe_valid_o : Bool
  pub dbg_fe_ready_o : Bool
  pub dbg_ifu_req_valid_o : Bool
  pub dbg_ifu_req_ready_o : Bool
  pub dbg_ifu_req_fire_o : Bool
  pub dbg_ifu_req_inflight_o : Bool
  pub dbg_ifu_rsp_valid_o : Bool
  pub dbg_ifu_rsp_capture_o : Bool
  pub dbg_ifu_drop_stale_rsp_o : Bool
  pub dbg_ifu_fq_full_o : Bool
  pub dbg_ifu_fq_empty_o : Bool
  pub dbg_ifu_block_flush_o : Bool
  pub dbg_ifu_block_reqq_empty_o : Bool
  pub dbg_ifu_block_inf_full_o : Bool
  pub dbg_ifu_block_storage_budget_o : Bool
  pub dbg_icache_state_o : ℕ
  pub dbg_lsu_rs_head_has_rs2_o : Bool
  pub dbg_lsu_rs_head_r2_ready_o : Bool
  pub dbg_ren_src_from_pending_o : Bool
  pub dbg_ren_src_count_o : ℕ
  pub dbg_ren_fire_o : Bool
  pub dbg_ren_sel_count_o : ℕ
  pub dbg_lsu_grp_lane_busy_o : ℕ
  pub dbg_lsu_grp_alloc_fire_o : Bool
  pub dbg_lsu_grp_ld_owner_o : ℕ
  pub dbg_dc_store_wait_same_line_o : Bool
  pub dbg_dc_store_wait_mshr_full_o : Bool
  pub dbg_sb_alloc_req_o : ℕ
  pub dbg_sb_alloc_ready_o : Bool
  pub dbg_lsu_rs_head_valid_o : Bool
  pub dbg_lsu_rs_head_has_rs1_o : Bool
  pub dbg_lsu_rs_head_r1_ready_o : Bool
  pub dbg_lsu_rs_busy_o : ℕ
  pub dbg_lsu_rs_ready_o : ℕ
  pub dbg_rob_q2_valid_o : Bool
  pub dbg_rob_q2_complete_o : Bool
  pub dbg_gate_alu_o : Bool
  pub dbg_gate_bru_o : Bool
  pub dbg_gate_lsu_o : Bool
  pub dbg_gate_mdu_o : Bool
  pub dbg_gate_csr_o : Bool
  pub dbg_need_alu_o : ℕ
  pub dbg_need_bru_o : ℕ
  pub dbg_need_lsu_o : ℕ
  pub dbg_need_mdu_o : ℕ
  pub dbg_need_csr_o : ℕ
  pub dbg_lsu_state_o : ℕ
  pub dbg_lsu_ld_fire_o : Bool
  pub dbg_lsu_rsp_fire_o : Bool
  pub dbg_rob_head_fu_o : ℕ
  pub dbg_rob_head_is_store_o : Bool
  pub dbg_sb_head_valid_o : Bool
  pub dbg_sb_head_committed_o : Bool
  pub dbg_sb_head_addr_valid_o : Bool
  pub dbg_sb_head_data_valid_o : Bool
  pub dbg_sb_dcache_req_valid_o : Bool
  pub dbg_sb_dcache_req_ready_o : Bool
  pub dbg_lsu_ld_req_valid_o : Bool
  pub dbg_lsu_ld_req_ready_o : Bool
  pub dbg_lsu_ld_rsp_valid_o : Bool
  pub dbg_lsu_ld_rsp_ready_o : Bool
  pub dbg_dc_mshr_full_o : Bool
  pub dbg_dc_mshr_alloc_ready_o : Bool
  pub dcache_miss_req_ready_i : Bool
  pub dbg_rob_count_o : ℕ
  pub dbg_ren_ready_o : Bool
  pub dbg_alu_issue_any_o : Bool
  pub dbg_bru_valid_o : Bool
