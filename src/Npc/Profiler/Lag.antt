-- ===== src/Npc/Profiler/Lag.antt =====
-- The two accounts that profile_collector_runtime.cpp keeps of the same instructions agree.
use triathlon.Prelude.{
  ℕ, ◌+◌, Bool, true, false, not, ◌&&◌, ◌||◌, ◌==◌, List, [], ◌∷◌, ◌≡◌, arith, ap, ◌∙◌,
}
use triathlon.Prelude.Words.{u64, b2n}
use triathlon.Npc.Profiler.Commits.{
  Commits, opcode, is_call_inst, is_ret_inst, is_indirect_jump_inst, count_previous,
  count_predicted, record_commit,
}

-- A commit of `decoded_inst`.
pub record Commit : Type 0 where
  pub pc : ℕ
  pub raw_inst : ℕ
  pub decoded_inst : ℕ
  pub is_rvc : Bool

unfoldable pub record_all : List Commit → Commits → Commits
record_all [] s = s
record_all (c ∷ rest) s = record_all rest (record_commit c.pc c.raw_inst c.decoded_inst c.is_rvc s)

-- `predicted` counts the last commit, `control` does not yet.
abbrev pub Lags : (ℕ → Bool) → ℕ → ℕ → Commits → Type 0
Lags test predicted control s =
    predicted ≡ u64 (control + b2n (s.has_prev_commit && test s.prev_commit_inst))

unfoldable pub IsLagging : Commits → Type 0
IsLagging s =
    Lags (λ i. opcode i == 0x63) s.pred_cond_total s.control_branch_count s
    × Lags is_call_inst s.pred_call_total s.control_call_count s
    × Lags is_ret_inst s.pred_ret_total s.control_ret_count s
    × (s.pred_jump_total ≡ u64 (s.pred_jump_direct_total + s.pred_jump_indirect_total))

-- A return is a jump.
ret_jump :
    (inst : ℕ)
    → (((opcode inst == 0x6F) || (opcode inst == 0x67)) && is_ret_inst inst) ≡ is_ret_inst inst
unfolding is_ret_inst
ret_jump inst = ground arith

-- The jumps are split into the direct and the indirect ones.
jump-split :
    (jump back indirect : Bool) (total direct indirects : ℕ)
    → total ≡ u64 (direct + indirects)
    → u64 (total + b2n (jump && not back))
      ≡ u64 (
          u64 (direct + b2n (jump && not back && not indirect))
          + u64 (indirects + b2n (jump && not back && indirect)))
jump-split true true i t d n e = omega arith
jump-split true false true t d n e = omega arith
jump-split true false false t d n e = omega arith
jump-split false back i t d n e = omega arith

commit-IsLagging :
    (pc raw inst : ℕ) (rvc : Bool) (s : Commits)
    → IsLagging s
    → IsLagging (record_commit pc raw inst rvc s)
unfolding IsLagging record_commit count_previous count_predicted
commit-IsLagging pc raw inst rvc s (cond, call, ret, jump) = (
  ap (λ x. u64 (x + b2n (opcode inst == 0x63))) cond,
  ap (λ x. u64 (x + b2n (is_call_inst inst))) call,
  ap (λ b. u64 (s.pred_ret_total + b2n b)) (ret_jump inst)
      ∙ ap (λ x. u64 (x + b2n (is_ret_inst inst))) ret,
  jump-split ((opcode inst == 0x6F) || (opcode inst == 0x67)) (is_ret_inst inst)
      (is_indirect_jump_inst inst) s.pred_jump_total s.pred_jump_direct_total
      s.pred_jump_indirect_total jump,
)

-- The two accounts of the committed instructions agree, whatever is committed, also when a counter
-- wraps: along any commits, the branches, calls and returns that the predictor's account has are
-- those of the control account and the last commit, which that one counts with the next, and the
-- predictor's jumps are its direct and its indirect ones.
pub record_all-IsLagging :
    (commits : List Commit) (s : Commits) → IsLagging s → IsLagging (record_all commits s)
unfolding record_all
record_all-IsLagging [] s h = h
record_all-IsLagging (c ∷ rest) s h =
    let next = record_commit c.pc c.raw_inst c.decoded_inst c.is_rvc s in
    record_all-IsLagging rest next (commit-IsLagging c.pc c.raw_inst c.decoded_inst c.is_rvc s h)
