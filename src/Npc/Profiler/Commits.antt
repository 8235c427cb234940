-- ===== src/Npc/Profiler/Commits.antt =====
-- The counters of committed instructions, npc/csrc/lib/profile_collector_runtime.cpp.
use Prim.Native.Nat.{bit_and}
use triathlon.Prelude.{ℕ, ◌+◌, Bool, true, not, ◌&&◌, ◌||◌, ◌==◌}
use triathlon.Prelude.Words.{u32, u64, b2n, ◌>>◌}
use triathlon.Prelude.Store.{Store}
use triathlon.Npc.Profiler.{bump_at}

-- The counters that a commit moves, and the commit before.
pub record Commits : Type 0 where
  pub total_commits : ℕ
  pub commit_pc_hist : Store
  pub commit_inst_hist : Store
  pub has_prev_commit : Bool
  pub prev_commit_pc : ℕ
  pub prev_commit_inst : ℕ
  pub control_branch_count : ℕ
  pub control_branch_taken_count : ℕ
  pub control_jal_count : ℕ
  pub control_jalr_count : ℕ
  pub control_call_count : ℕ
  pub control_ret_count : ℕ
  pub pred_cond_total : ℕ
  pub pred_ret_total : ℕ
  pub pred_jump_total : ℕ
  pub pred_jump_direct_total : ℕ
  pub pred_jump_indirect_total : ℕ
  pub pred_call_total : ℕ
  pub last_commit_pc : ℕ
  pub last_commit_inst : ℕ
  pub last_commit_decoded_inst : ℕ
  pub last_commit_is_rvc : Bool

abbrev pub opcode : ℕ → ℕ
opcode inst = bit_and inst 0x7F

unfoldable pub is_call_inst : ℕ → Bool
is_call_inst inst =
    let rd = bit_and (inst >> 7) 0x1F in
    ((opcode inst == 0x6F) || (opcode inst == 0x67)) && ((rd == 1) || (rd == 5))

unfoldable pub is_ret_inst : ℕ → Bool
is_ret_inst inst =
    let rd = bit_and (inst >> 7) 0x1F in
    let rs1 = bit_and (inst >> 15) 0x1F in
    let imm12 = bit_and (inst >> 20) 0xFFF in
    (opcode inst == 0x67) && (rd == 0) && ((rs1 == 1) || (rs1 == 5)) && (imm12 == 0)

unfoldable pub is_indirect_jump_inst : ℕ → Bool
is_indirect_jump_inst inst = (opcode inst == 0x67) && not (is_call_inst inst || is_ret_inst inst)

-- `if (condition) counter++`.
abbrev pub count_if : Bool → ℕ → ℕ
count_if condition counter = u64 (counter + b2n condition)

-- What the next commit tells of the one before.
unfoldable pub count_previous : ℕ → Commits → Commits
count_previous pc s =
    let op = opcode s.prev_commit_inst in
    let jumped = not (pc == u32 (s.prev_commit_pc + 4)) in
    record s {
      control_branch_count = count_if (s.has_prev_commit && (op == 0x63)) s.control_branch_count;
      control_branch_taken_count =
          count_if (s.has_prev_commit && (op == 0x63) && jumped) s.control_branch_taken_count;
      control_jal_count = count_if (s.has_prev_commit && (op == 0x6F)) s.control_jal_count;
      control_jalr_count = count_if (s.has_prev_commit && (op == 0x67)) s.control_jalr_count;
      control_call_count =
          count_if (s.has_prev_commit && is_call_inst s.prev_commit_inst) s.control_call_count;
      control_ret_count =
          count_if (s.has_prev_commit && is_ret_inst s.prev_commit_inst) s.control_ret_count;
    }

-- What the predictor is asked for the instruction.
unfoldable pub count_predicted : ℕ → Commits → Commits
count_predicted inst s =
    let jump = (opcode inst == 0x6F) || (opcode inst == 0x67) in
    record s {
      pred_cond_total = count_if (opcode inst == 0x63) s.pred_cond_total;
      pred_ret_total = count_if (jump && is_ret_inst inst) s.pred_ret_total;
      pred_jump_total = count_if (jump && not (is_ret_inst inst)) s.pred_jump_total;
      pred_jump_indirect_total =
          count_if (jump && not (is_ret_inst inst) && is_indirect_jump_inst inst)
            s.pred_jump_indirect_total;
      pred_jump_direct_total =
          count_if (jump && not (is_ret_inst inst) && not (is_indirect_jump_inst inst))
            s.pred_jump_direct_total;
      pred_call_total = count_if (is_call_inst inst) s.pred_call_total;
    }

unfoldable pub record_commit : ℕ → ℕ → ℕ → Bool → Commits → Commits
record_commit pc raw_inst decoded_inst is_rvc s =
    let counted = record s {
      total_commits = u64 (s.total_commits + 1);
      commit_pc_hist = bump_at pc s.commit_pc_hist;
      commit_inst_hist = bump_at raw_inst s.commit_inst_hist;
    } in
    let next = record (count_previous pc counted) {
      has_prev_commit = true;
      prev_commit_pc = pc;
      prev_commit_inst = decoded_inst;
    } in
    record (count_predicted decoded_inst next) {
      last_commit_pc = pc;
      last_commit_inst = raw_inst;
      last_commit_decoded_inst = decoded_inst;
      last_commit_is_rvc = is_rvc;
    }
