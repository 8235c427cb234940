-- ===== src/Npc/Profiler/Others.antt =====
-- Why a cycle retires nothing though no stage is blocked, `classify_other_detail_cycle` of
-- npc/csrc/lib/profile_collector_stall.cpp.
use Prim.Native.String.{String}
use triathlon.Prelude.{Bool, not, ◌&&◌, ◌||◌, ◌==◌, ltb, [], ◌∷◌}
use triathlon.Npc.Profiler.Signals.{Top}
use triathlon.Npc.Profiler.Stalls.{first_of}

unfoldable pub rob_empty : Top → String
rob_empty t =
    first_of
      ((not t.dbg_ren_ready_o, "rob_empty_refill_ren_not_ready")
        ∷ (t.dbg_ren_fire_o, "rob_empty_refill_ren_fire")
        ∷ (t.dbg_ifu_req_inflight_o, "rob_empty_refill_wait_frontend_rsp")
        ∷ (t.dbg_ifu_rsp_valid_o && t.dbg_ifu_rsp_capture_o, "rob_empty_refill_rsp_capture")
        ∷ [])
      "rob_empty_refill_other"

unfoldable pub q2_incomplete : Top → Bool
q2_incomplete t = t.dbg_rob_q2_valid_o && not t.dbg_rob_q2_complete_o

unfoldable pub wait_write_back : Top → String
wait_write_back t =
    first_of
      ((
        (t.dbg_rob_head_fu_o == 3) && not t.dbg_rob_head_complete_o,
        "lsu_wait_wb_head_lsu_incomplete",
      )
        ∷ ((t.dbg_rob_head_fu_o == 3) && t.dbg_rob_head_complete_o, "lsu_wait_wb_head_lsu_complete")
        ∷ (q2_incomplete t, "lsu_wait_wb_q2_incomplete")
        ∷ [])
      "lsu_wait_wb_other"

unfoldable pub head_store : Top → String
head_store t =
    first_of
      ((not t.dbg_sb_head_valid_o, "rob_head_store_wait_sb_head_nonbp")
        ∷ (not t.dbg_sb_head_committed_o, "rob_head_store_wait_commit_nonbp")
        ∷ (not t.dbg_sb_head_addr_valid_o, "rob_head_store_wait_addr_nonbp")
        ∷ (not t.dbg_sb_head_data_valid_o, "rob_head_store_wait_data_nonbp")
        ∷ (
          t.dbg_sb_dcache_req_valid_o && not t.dbg_sb_dcache_req_ready_o,
          "rob_head_store_wait_dcache_nonbp",
        )
        ∷ (not t.dbg_sb_dcache_req_valid_o, "rob_head_store_wait_issue_nonbp")
        ∷ [])
      "rob_head_store_wait_other_nonbp"

unfoldable pub head_alu : Top → String
head_alu t =
    first_of
      ((t.dbg_alu_wb_head_hit_o, "rob_head_alu_complete_not_visible_incomplete_nonbp")
        ∷ (t.dbg_alu_issue_any_o, "rob_head_alu_exec_wait_wb_incomplete_nonbp")
        ∷ (t.dbg_alu_ready_not_issued_o, "rob_head_alu_ready_not_issued_incomplete_nonbp")
        ∷ (
          not t.dbg_gate_alu_o && ltb 0 t.dbg_need_alu_o,
          "rob_head_alu_dispatch_blocked_incomplete_nonbp",
        )
        ∷ [])
      "rob_head_alu_wait_operand_or_select_incomplete_nonbp"

unfoldable pub head_branch : Top → String
head_branch t =
    first_of
      ((t.dbg_bru_wb_head_hit_o, "rob_head_branch_complete_not_visible_incomplete_nonbp")
        ∷ (t.dbg_bru_valid_o, "rob_head_branch_exec_wait_wb_incomplete_nonbp")
        ∷ (t.dbg_bru_ready_not_issued_o, "rob_head_branch_ready_not_issued_incomplete_nonbp")
        ∷ (
          not t.dbg_gate_bru_o && ltb 0 t.dbg_need_bru_o,
          "rob_head_branch_dispatch_blocked_incomplete_nonbp",
        )
        ∷ [])
      "rob_head_branch_wait_operand_or_select_incomplete_nonbp"

unfoldable pub head_load_request : Top → String
head_load_request t =
    first_of
      ((
        t.dbg_lsu_ld_req_valid_o && not t.dbg_lsu_ld_req_ready_o,
        "rob_head_lsu_incomplete_wait_req_ready_nonbp",
      )
        ∷ (
          not t.dbg_lsu_ld_req_valid_o && not t.dbg_lsu_ld_req_ready_o,
          "rob_head_lsu_incomplete_wait_owner_or_alloc_nonbp",
        )
        ∷ (not t.dbg_lsu_ld_fire_o, "rob_head_lsu_incomplete_req_fire_gap_nonbp")
        ∷ [])
      "rob_head_lsu_incomplete_sm_req_unknown_nonbp"

unfoldable pub head_load_response : Top → String
head_load_response t =
    first_of
      ((not t.dbg_lsu_ld_rsp_valid_o, "rob_head_lsu_incomplete_wait_rsp_valid_nonbp")
        ∷ (
          t.dbg_lsu_ld_rsp_valid_o && not t.dbg_lsu_ld_rsp_ready_o,
          "rob_head_lsu_incomplete_wait_rsp_ready_nonbp",
        )
        ∷ (not t.dbg_lsu_rsp_fire_o, "rob_head_lsu_incomplete_rsp_fire_gap_nonbp")
        ∷ [])
      "rob_head_lsu_incomplete_sm_rsp_unknown_nonbp"

unfoldable pub head_load : Top → String
head_load t =
    first_of
      ((t.dbg_lsu_state_o == 0, "rob_head_lsu_incomplete_sm_idle_nonbp")
        ∷ (t.dbg_lsu_state_o == 1, head_load_request t)
        ∷ (t.dbg_lsu_state_o == 2, head_load_response t)
        ∷ [])
      "rob_head_lsu_incomplete_sm_other_nonbp"

unfoldable pub head_incomplete : Top → String
head_incomplete t =
    first_of
      ((t.dbg_rob_head_fu_o == 1, head_alu t)
        ∷ (t.dbg_rob_head_fu_o == 2, head_branch t)
        ∷ (t.dbg_rob_head_fu_o == 3, head_load t)
        ∷ (
          (t.dbg_rob_head_fu_o == 4) || (t.dbg_rob_head_fu_o == 5),
          "rob_head_mdu_incomplete_nonbp",
        )
        ∷ (t.dbg_rob_head_fu_o == 6, "rob_head_csr_incomplete_nonbp")
        ∷ [])
      "rob_head_unknown_incomplete_nonbp"

unfoldable pub classify_other_detail_cycle : Top → String
classify_other_detail_cycle t =
    first_of
      ((t.dbg_rob_count_o == 0, rob_empty t)
        ∷ (t.dbg_lsu_state_o == 3, wait_write_back t)
        ∷ (t.dbg_rob_head_is_store_o, head_store t)
        ∷ (not t.dbg_rob_head_complete_o, head_incomplete t)
        ∷ (q2_incomplete t, "rob_q2_not_complete_nonstall")
        ∷ (not t.dbg_ren_ready_o, "ren_not_ready")
        ∷ (not t.dbg_ren_fire_o, "ren_no_fire")
        ∷ (
          (t.dbg_lsu_state_o == 1)
              && t.dbg_lsu_ld_req_valid_o
              && t.dbg_lsu_ld_req_ready_o
              && not t.dbg_lsu_ld_fire_o,
          "lsu_req_fire_gap",
        )
        ∷ (
          (t.dbg_lsu_state_o == 2)
              && t.dbg_lsu_ld_rsp_valid_o
              && t.dbg_lsu_ld_rsp_ready_o
              && not t.dbg_lsu_rsp_fire_o,
          "lsu_rsp_fire_gap",
        )
        ∷ [])
      "other"
