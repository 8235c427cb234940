-- ===== src/Npc/Profiler/Details.antt =====
-- Why the decoder, or the reorder buffer, is blocked: two of the classifications of
-- npc/csrc/lib/profile_collector_stall.cpp, whose results are the source's labels.
use Prim.Native.String.{String}
use triathlon.Prelude.{ℕ, Bool, not, ◌&&◌, ◌||◌, ◌==◌, ltb, leb, if◌then◌else◌, List, [], ◌∷◌}
use triathlon.Npc.Profiler.Signals.{Top}
use triathlon.Npc.Profiler.Stalls.{first_of}

-- Renamed instructions that are replayed: `full` when they fill the source.
unfoldable pub pending_replay : ℕ → Top → String
pending_replay cfg_instr_per_fetch t =
    let full = leb cfg_instr_per_fetch t.dbg_ren_src_count_o in
    if t.dbg_ren_fire_o && ltb 0 t.dbg_ren_sel_count_o
    then (if full then "pending_replay_progress_full" else "pending_replay_progress_has_room")
    else (if full then "pending_replay_wait_full" else "pending_replay_wait_has_room")

-- The gates in the order of `gate_priority`, each with its need and its label.
unfoldable pub gate_priority : Top → List (Bool × ℕ × String)
gate_priority t =
    (t.dbg_gate_lsu_o, t.dbg_need_lsu_o, "dispatch_gate_lsu")
    ∷ (t.dbg_gate_alu_o, t.dbg_need_alu_o, "dispatch_gate_alu")
    ∷ (t.dbg_gate_bru_o, t.dbg_need_bru_o, "dispatch_gate_bru")
    ∷ (t.dbg_gate_csr_o, t.dbg_need_csr_o, "dispatch_gate_csr")
    ∷ (t.dbg_gate_mdu_o, t.dbg_need_mdu_o, "dispatch_gate_mdu")
    ∷ []

-- The two loops over the gates; `last` is what follows the loop.
unfoldable pub needed_gate : List (Bool × ℕ × String) → String → String
needed_gate [] last = last
needed_gate ((gate, need, label) ∷ rest) last =
    if not gate && ltb 0 need then label else needed_gate rest last

unfoldable pub closed_gate : List (Bool × ℕ × String) → String → String
closed_gate [] last = last
closed_gate ((gate, need, label) ∷ rest) last = if not gate then label else closed_gate rest last

unfoldable pub wait_load : Top → String
wait_load t =
    first_of
      (((t.dbg_lsu_state_o == 1) && not t.dbg_lsu_ld_fire_o, "lsu_wait_ld_req")
        ∷ ((t.dbg_lsu_state_o == 2) && not t.dbg_lsu_rsp_fire_o, "lsu_wait_ld_rsp")
        ∷ [])
      "other"

-- The operands that the head of the reservation station lacks.
unfoldable pub lacks_operand : Top → Bool
lacks_operand t =
    (t.dbg_lsu_rs_head_has_rs1_o && not t.dbg_lsu_rs_head_r1_ready_o)
    || (t.dbg_lsu_rs_head_has_rs2_o && not t.dbg_lsu_rs_head_r2_ready_o)

unfoldable pub classify_decode_blocked_detail_cycle : ℕ → Top → String
classify_decode_blocked_detail_cycle cfg_instr_per_fetch t =
    first_of
      ((t.dbg_ren_src_from_pending_o, pending_replay cfg_instr_per_fetch t)
        ∷ (
          not (t.dbg_lsu_grp_lane_busy_o == 0) && not t.dbg_lsu_grp_alloc_fire_o,
          (if t.dbg_lsu_grp_ld_owner_o == 0 then "lsug_wait_dcache_owner" else "lsug_no_free_lane"),
        )
        ∷ (t.dbg_dc_store_wait_same_line_o, "dc_store_wait_same_line")
        ∷ (t.dbg_dc_store_wait_mshr_full_o, "dc_store_wait_mshr_full")
        ∷ (not (t.dbg_sb_alloc_req_o == 0) && not t.dbg_sb_alloc_ready_o, "sb_alloc_blocked")
        ∷ (t.dbg_lsu_rs_head_valid_o && lacks_operand t, "lsu_operand_wait")
        ∷ (not (t.dbg_lsu_rs_busy_o == 0) && (t.dbg_lsu_rs_ready_o == 0), "lsu_rs_pressure")
        ∷ (
          t.dbg_rob_q2_valid_o
              && not t.dbg_rob_q2_complete_o
              && t.dbg_lsu_rs_head_has_rs2_o
              && not t.dbg_lsu_rs_head_r2_ready_o,
          "rob_q2_wait",
        )
        ∷ [])
      (needed_gate (gate_priority t) (closed_gate (gate_priority t) (wait_load t)))

-- The store at the head of the reorder buffer.
unfoldable pub rob_store : Top → String
rob_store t =
    first_of
      ((not t.dbg_sb_head_valid_o, "rob_store_wait_sb_head")
        ∷ (not t.dbg_sb_head_committed_o, "rob_store_wait_commit")
        ∷ (not t.dbg_sb_head_addr_valid_o, "rob_store_wait_addr")
        ∷ (not t.dbg_sb_head_data_valid_o, "rob_store_wait_data")
        ∷ (t.dbg_sb_dcache_req_valid_o && not t.dbg_sb_dcache_req_ready_o, "rob_store_wait_dcache")
        ∷ (not t.dbg_sb_dcache_req_valid_o, "rob_store_wait_issue")
        ∷ [])
      "rob_store_wait_other"

-- A load that asks, `sm == 1`: its request is up and refused, or not up.
unfoldable pub rob_request : Top → String
rob_request t =
    let owned = not (t.dbg_lsu_grp_ld_owner_o == 0) in
    let rsp_valid = t.dbg_lsu_ld_rsp_valid_o in
    let rsp_ready = t.dbg_lsu_ld_rsp_ready_o in
    let refused = t.dbg_lsu_ld_req_valid_o && not t.dbg_lsu_ld_req_ready_o in
    let down = not t.dbg_lsu_ld_req_valid_o && not t.dbg_lsu_ld_req_ready_o in
    first_of
      ((refused && owned && rsp_valid && rsp_ready, "rob_lsu_wait_ld_req_ready_owner_rsp_fire")
        ∷ (
          refused && owned && not rsp_valid && rsp_ready,
          "rob_lsu_wait_ld_req_ready_owner_rsp_valid",
        )
        ∷ (
          refused && owned && rsp_valid && not rsp_ready,
          "rob_lsu_wait_ld_req_ready_owner_rsp_ready",
        )
        ∷ (
          refused && t.dbg_sb_dcache_req_valid_o && not t.dbg_sb_dcache_req_ready_o,
          "rob_lsu_wait_ld_req_ready_sb_conflict",
        )
        ∷ (
          refused && (t.dbg_dc_mshr_full_o || not t.dbg_dc_mshr_alloc_ready_o),
          "rob_lsu_wait_ld_req_ready_mshr_blocked",
        )
        ∷ (
          refused && t.dcache_miss_req_valid_o && not t.dcache_miss_req_ready_i,
          "rob_lsu_wait_ld_req_ready_miss_port_busy",
        )
        ∷ (refused, "rob_lsu_wait_ld_req_ready")
        ∷ (down && owned && rsp_valid && rsp_ready, "rob_lsu_wait_ld_owner_rsp_fire")
        ∷ (down && owned && not rsp_valid && rsp_ready, "rob_lsu_wait_ld_owner_rsp_valid")
        ∷ (down && owned && rsp_valid && not rsp_ready, "rob_lsu_wait_ld_owner_rsp_ready")
        ∷ (down && owned, "rob_lsu_wait_ld_owner_hold")
        ∷ (down && not t.dbg_lsu_grp_alloc_fire_o, "rob_lsu_wait_ld_arb_no_grant")
        ∷ (not t.dbg_lsu_ld_fire_o, "rob_lsu_wait_ld_req_fire")
        ∷ [])
      "rob_lsu_incomplete_sm_req_unknown"

unfoldable pub rob_response : Top → String
rob_response t =
    first_of
      ((not t.dbg_lsu_ld_rsp_valid_o, "rob_lsu_wait_ld_rsp_valid")
        ∷ (t.dbg_lsu_ld_rsp_valid_o && not t.dbg_lsu_ld_rsp_ready_o, "rob_lsu_wait_ld_rsp_ready")
        ∷ (not t.dbg_lsu_rsp_fire_o, "rob_lsu_wait_ld_rsp_fire")
        ∷ [])
      "rob_lsu_incomplete_sm_rsp_unknown"

unfoldable pub rob_load : Top → String
rob_load t =
    first_of
      ((t.dbg_lsu_state_o == 0, "rob_lsu_incomplete_sm_idle")
        ∷ (t.dbg_lsu_state_o == 1, rob_request t)
        ∷ (t.dbg_lsu_state_o == 2, rob_response t)
        ∷ (t.dbg_lsu_state_o == 3, "rob_lsu_wait_wb")
        ∷ [])
      "rob_lsu_incomplete_sm_illegal"

-- The unit that the head waits for.
unfoldable pub rob_incomplete : Top → String
rob_incomplete t =
    first_of
      ((t.dbg_rob_head_fu_o == 1, "rob_head_fu_alu_incomplete")
        ∷ (t.dbg_rob_head_fu_o == 2, "rob_head_fu_branch_incomplete")
        ∷ (t.dbg_rob_head_fu_o == 3, rob_load t)
        ∷ ((t.dbg_rob_head_fu_o == 4) || (t.dbg_rob_head_fu_o == 5), "rob_head_fu_mdu_incomplete")
        ∷ (t.dbg_rob_head_fu_o == 6, "rob_head_fu_csr_incomplete")
        ∷ [])
      "rob_head_fu_unknown_incomplete"

unfoldable pub classify_rob_backpressure_detail_cycle : Top → String
classify_rob_backpressure_detail_cycle t =
    first_of
      ((t.dbg_rob_head_is_store_o, rob_store t)
        ∷ (not t.dbg_rob_head_complete_o, rob_incomplete t)
        ∷ [])
      "rob_head_complete_but_not_ready"
