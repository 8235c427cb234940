-- ===== src/Npc/Profiler/Tally.antt =====
-- The histograms of the profiler account for every cycle that retires nothing.
use Prim.Native.String.{String}
use text.Mathlib.Text.{◌==◌ as ◌===◌}
use triathlon.Prelude.{
  ℕ, zero, suc, ◌+◌, ◌^◌, ◌≤◌, ◌<◌, List, [], ◌∷◌, ◌≡◌, refl, arith, ap, ◌∙◌, sym, subst,
  Bool-cases, ◌⊎◌, inl, inr, length,
}
use triathlon.Prelude.Words.{u64}
use triathlon.Prelude.Store.{Store, update, update_self}
use triathlon.Npc.Profiler.Signals.{Top}
use triathlon.Npc.Profiler.Stalls.{
  StallKindIdx, flush_recovery, icache_miss_wait, dcache_miss_wait, rob_backpressure,
  frontend_empty, decode_blocked, lsu_req_blocked, stall_other, stall_index, FrontendEmptyDetailIdx,
  fe_no_req, fe_wait_icache_rsp_hit_latency, fe_wait_icache_rsp_miss_wait,
  fe_rsp_blocked_by_fq_full, fe_wait_ibuffer_consume, fe_redirect_recovery, fe_rsp_capture_bubble,
  fe_has_data_decode_gap, fe_other, fe_drop_stale_rsp, fe_no_req_reqq_empty, fe_no_req_inf_full,
  fe_no_req_storage_budget, fe_no_req_flush_block, fe_no_req_other, fe_req_fire_no_inflight,
  fe_rsp_no_inflight, fe_fq_nonempty_no_fe_valid, fe_req_ready_no_fire, detail_index,
  classify_stall_cycle, classify_frontend_empty_cycle,
}
use triathlon.Npc.Profiler.Details.{
  classify_decode_blocked_detail_cycle, classify_rob_backpressure_detail_cycle,
}
use triathlon.Npc.Profiler.Others.{classify_other_detail_cycle}
use triathlon.Npc.Profiler.{
  Hist, Profile, bump_at, bump, count_detail, count_kind, count_waits, on_no_commit_cycle,
}

-- The sum of the first `n` cells, and of all counts of a map.
abbrev pub sum_to : ℕ → Store → ℕ
sum_to zero hist = 0
sum_to (suc n) hist = sum_to n hist + hist n

abbrev pub total : Hist → ℕ
total [] = 0
total ((key, count) ∷ rest) = count + total rest

-- After `n` cycles every histogram of details sums to the count of its kind, and the kinds to `n`.
unfoldable pub IsTallied : ℕ → Profile → Type 0
IsTallied n p =
    (sum_to 8 p.stall_cycle_hist ≡ n)
    × (sum_to 19 p.stall_frontend_empty_hist ≡ p.stall_cycle_hist 4)
    × (total p.stall_decode_blocked_detail_hist ≡ p.stall_cycle_hist 5)
    × (total p.stall_rob_backpressure_detail_hist ≡ p.stall_cycle_hist 3)
    × (total p.stall_other_detail_hist ≡ p.stall_cycle_hist 7)

-- The calls of a run, in order.
unfoldable pub run_stalled : ℕ → List Top → Profile → Profile
run_stalled cfg [] p = p
run_stalled cfg (t ∷ rest) p = run_stalled cfg rest (on_no_commit_cycle cfg t p)

total-bump : (label : String) (h : Hist) → total h + 1 < 2 ^ 64 → total (bump label h) ≡ total h + 1
unfolding bump
total-bump label [] l = refl
total-bump label ((key, count) ∷ rest) l = elim (Bool-cases (key === label)) [
  | inl same ↦ rw (same) (omega arith)
  | inr other ↦ let e = total-bump label rest (omega arith) in rw (other) (omega arith)
]

sum-outside : (n i v : ℕ) (h : Store) → n ≤ i → sum_to n (update h i v) ≡ sum_to n h
unfolding update
sum-outside zero i v h l = refl
sum-outside (suc n) i v h l = ground (arith, sum-outside n i v h (omega arith))

lt-cases : (i n : ℕ) → i < suc n → (i < n) ⊎ (i ≡ n)
lt-cases i n l = ground arith

cell-sum : (n i : ℕ) (h : Store) → i < n → h i ≤ sum_to n h
cell-sum zero i h l = omega arith
cell-sum (suc n) i h l = elim (lt-cases i n l) [
  | inl before ↦ let e = cell-sum n i h before in omega arith
  | inr last ↦ rw (last) (omega arith)
]

sum-bump :
    (n i : ℕ) (h : Store)
    → i < n
    → sum_to n h + 1 < 2 ^ 64
    → sum_to n (bump_at i h) ≡ sum_to n h + 1
unfolding bump_at update
sum-bump zero i h l b = omega arith
sum-bump (suc n) i h l b = elim (lt-cases i n l) [
  | inl before ↦ below before (sum-bump n i h before (omega arith))
  | inr last ↦ rw (last) at_end
]
  where
    below :
        i < n
        → sum_to n (bump_at i h) ≡ sum_to n h + 1
        → sum_to (suc n) (bump_at i h) ≡ sum_to (suc n) h + 1
    below before e = ground arith

    at_end : sum_to n (bump_at n h) + bump_at n h n ≡ sum_to n h + h n + 1
    at_end =
        let e = sum-outside n n (u64 (h n + 1)) h (omega arith) in
        let f = update_self h n (u64 (h n + 1)) in omega arith

detail-lt : (detail : FrontendEmptyDetailIdx) → detail_index detail < 19
unfolding detail_index
detail-lt fe_no_req = omega arith
detail-lt fe_wait_icache_rsp_hit_latency = omega arith
detail-lt fe_wait_icache_rsp_miss_wait = omega arith
detail-lt fe_rsp_blocked_by_fq_full = omega arith
detail-lt fe_wait_ibuffer_consume = omega arith
detail-lt fe_redirect_recovery = omega arith
detail-lt fe_rsp_capture_bubble = omega arith
detail-lt fe_has_data_decode_gap = omega arith
detail-lt fe_other = omega arith
detail-lt fe_drop_stale_rsp = omega arith
detail-lt fe_no_req_reqq_empty = omega arith
detail-lt fe_no_req_inf_full = omega arith
detail-lt fe_no_req_storage_budget = omega arith
detail-lt fe_no_req_flush_block = omega arith
detail-lt fe_no_req_other = omega arith
detail-lt fe_req_fire_no_inflight = omega arith
detail-lt fe_rsp_no_inflight = omega arith
detail-lt fe_fq_nonempty_no_fe_valid = omega arith
detail-lt fe_req_ready_no_fire = omega arith

-- One more cycle of kind `i`, after `n`.
module _ (i n : ℕ) (h : Store) (l : i < 8) (b : n + 1 < 2 ^ 64) (e : sum_to 8 h ≡ n) where
  sum-kinds : sum_to 8 (bump_at i h) ≡ n + 1
  sum-kinds =
      let s = sum-bump 8 i h l (subst (λ x. x + 1 < 2 ^ 64) (sym e) b) in s ∙ ap (λ x. x + 1) e

  kind-lt : h i + 1 < 2 ^ 64
  kind-lt = let le = subst (λ x. h i ≤ x) e (cell-sum 8 i h l) in omega arith

  bump_self : bump_at i h i ≡ h i + 1
  unfolding bump_at
  bump_self = let f = update_self h i (u64 (h i + 1)) in let k = kind-lt in omega arith

  label-bump : (label : String) (d : Hist) → total d ≡ h i → total (bump label d) ≡ bump_at i h i
  label-bump label d q =
      let k = kind-lt in
      let c = bump_self in let s = total-bump label d (omega arith) in omega arith

  detail-bump :
      (detail : ℕ) (d : Store)
      → detail < 19
      → sum_to 19 d ≡ h i
      → sum_to 19 (bump_at detail d) ≡ bump_at i h i
  detail-bump detail d less q =
      let k = kind-lt in
      let s = sum-bump 19 detail d less (subst (λ x. x + 1 < 2 ^ 64) (sym q) k) in
      s ∙ ap (λ x. x + 1) q ∙ sym bump_self

kind-IsTallied :
    (kind : StallKindIdx) (cfg : ℕ) (t : Top) (p : Profile) (n : ℕ)
    → n + 1 < 2 ^ 64
    → IsTallied n p
    → IsTallied (n + 1) (count_kind kind cfg t p)
unfolding IsTallied count_kind count_detail stall_index bump_at update
kind-IsTallied flush_recovery cfg t p n b (all, fe, dec, rob, oth) =
    (sum-kinds 0 n p.stall_cycle_hist (omega arith) b all, fe, dec, rob, oth)
kind-IsTallied icache_miss_wait cfg t p n b (all, fe, dec, rob, oth) =
    (sum-kinds 1 n p.stall_cycle_hist (omega arith) b all, fe, dec, rob, oth)
kind-IsTallied dcache_miss_wait cfg t p n b (all, fe, dec, rob, oth) =
    (sum-kinds 2 n p.stall_cycle_hist (omega arith) b all, fe, dec, rob, oth)
kind-IsTallied lsu_req_blocked cfg t p n b (all, fe, dec, rob, oth) =
    (sum-kinds 6 n p.stall_cycle_hist (omega arith) b all, fe, dec, rob, oth)
kind-IsTallied rob_backpressure cfg t p n b (all, fe, dec, rob, oth) =
    let label = classify_rob_backpressure_detail_cycle t in
    let d = p.stall_rob_backpressure_detail_hist in
    (
      sum-kinds 3 n p.stall_cycle_hist (omega arith) b all,
      fe,
      dec,
      label-bump 3 n p.stall_cycle_hist (omega arith) b all label d rob,
      oth,
    )
kind-IsTallied frontend_empty cfg t p n b (all, fe, dec, rob, oth) =
    let detail = classify_frontend_empty_cycle t in
    let d = p.stall_frontend_empty_hist in
    let less = detail-lt detail in
    (
      sum-kinds 4 n p.stall_cycle_hist (omega arith) b all,
      detail-bump 4 n p.stall_cycle_hist (omega arith) b all (detail_index detail) d less fe,
      dec,
      rob,
      oth,
    )
kind-IsTallied decode_blocked cfg t p n b (all, fe, dec, rob, oth) =
    let label = classify_decode_blocked_detail_cycle cfg t in
    let d = p.stall_decode_blocked_detail_hist in
    (
      sum-kinds 5 n p.stall_cycle_hist (omega arith) b all,
      fe,
      label-bump 5 n p.stall_cycle_hist (omega arith) b all label d dec,
      rob,
      oth,
    )
kind-IsTallied stall_other cfg t p n b (all, fe, dec, rob, oth) =
    let label = classify_other_detail_cycle t in
    let d = p.stall_other_detail_hist in
    (
      sum-kinds 7 n p.stall_cycle_hist (omega arith) b all,
      fe,
      dec,
      rob,
      label-bump 7 n p.stall_cycle_hist (omega arith) b all label d oth,
    )

waits-IsTallied : (t : Top) (p : Profile) (n : ℕ) → IsTallied n p → IsTallied n (count_waits t p)
unfolding IsTallied count_waits
waits-IsTallied t p n h = h

step-IsTallied :
    (cfg : ℕ) (t : Top) (p : Profile) (n : ℕ)
    → n + 1 < 2 ^ 64
    → IsTallied n p
    → IsTallied (n + 1) (on_no_commit_cycle cfg t p)
unfolding on_no_commit_cycle
step-IsTallied cfg t p n b h =
    waits-IsTallied t (count_kind (classify_stall_cycle t) cfg t p) (n + 1)
      (kind-IsTallied (classify_stall_cycle t) cfg t p n b h)

-- The profiler accounts for every cycle: over any run of cycles that retire nothing, no longer than
-- 64 bits can count, from counters that agree, the counters of the eight kinds sum to the number of
-- cycles, and the details of an empty front end, of a blocked decoder, of a full reorder buffer and
-- of the rest sum to the counter of their kind.
pub run-IsTallied :
    (cfg : ℕ) (tops : List Top) (p : Profile) (n : ℕ)
    → n + length tops < 2 ^ 64
    → IsTallied n p
    → IsTallied (n + length tops) (run_stalled cfg tops p)
unfolding run_stalled
run-IsTallied cfg [] p n b h = let e : n ≡ n + 0 = omega arith in subst (λ k. IsTallied k p) e h
run-IsTallied cfg (t ∷ rest) p n b h =
    let next = on_no_commit_cycle cfg t p in
    let less : n + 1 + length rest < 2 ^ 64 = omega arith in
    let e : n + 1 + length rest ≡ n + suc (length rest) = omega arith in
    let step = step-IsTallied cfg t p n (omega arith) h in
    subst (λ k. IsTallied k (run_stalled cfg rest next)) e
      (run-IsTallied cfg rest next (n + 1) less step)
