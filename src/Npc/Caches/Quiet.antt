-- ===== src/Npc/Caches/Quiet.antt =====
-- The data cache's requests of memory_models.h are all answered once the cache stays ready.
use triathlon.Prelude.{
  ℕ, suc, ◌<◌, ◌≤◌, Bool, true, false, not, ◌&&◌, ◌==◌, leb, List, [], ◌∷◌, ◌++◌, map, length, ◌≡◌,
  refl, sym, ap, ◌∙◌, arith, Bool-cases, inl, inr,
}
use triathlon.Npc.State.{UnifiedMem}
use triathlon.Npc.Caches.Signals.{Wires}
use triathlon.Npc.Caches.Dcache
use triathlon.Npc.Caches.Dcache.{MissTxn, DcacheModel}
use triathlon.Npc.Caches.Fifo.{
  Cycle, request, after, deliveries, requests, append_nil, deliveries-fifo,
}

-- Cycles in which the cache is ready and asks for nothing.
abbrev pub all_quiet : List Cycle → Bool
all_quiet [] = true
all_quiet (x ∷ xs) = x.wires.refill_ready_o && not x.wires.miss_req_valid_o && all_quiet xs

abbrev pub all_within : ℕ → List MissTxn → Bool
all_within d [] = true
all_within d (t ∷ ts) = leb t.delay d && all_within d ts

count_down-within :
    (d : ℕ) (ts : List MissTxn)
    → all_within (suc d) ts ≡ true
    → all_within d (map Dcache.count_down ts) ≡ true
unfolding Dcache.count_down
count_down-within d [] h = refl
count_down-within d (t ∷ ts) h = let rest = count_down-within d ts (ground arith) in ground arith

length-map {ℓ κ} :
    {A : Type ℓ} {B : Type κ} (f : A → B) (xs : List A) → length (map f xs) ≡ length xs
length-map f [] = refl
length-map f (x ∷ xs) = ap suc (length-map f xs)

-- One quiet cycle.
quiet :
    (m : UnifiedMem) (w : Wires) (c : DcacheModel)
    → w.refill_ready_o ≡ true
    → w.miss_req_valid_o ≡ false
    → Dcache.observe true m w c
      ≡ Dcache.answer true (map Dcache.count_down c.pending_q) (record c { refill_pulse = false })
unfolding Dcache.observe Dcache.requested
quiet m w c r v = rw (r, v, append_nil c.pending_q) refl

answer-within :
    (d : ℕ) (ts : List MissTxn) (c : DcacheModel)
    → all_within d ts ≡ true
    → (all_within d ((Dcache.answer true ts c).pending_q) ≡ true)
      × (length ((Dcache.answer true ts c).pending_q) ≤ length ts)
unfolding Dcache.answer
answer-within d [] c h = (refl, omega arith)
answer-within d (t ∷ ts) c h = elim (Bool-cases (t.delay == 0)) [
  | inl due ↦ rw due (ground arith, omega arith)
  | inr later ↦ rw later (h, omega arith)
]

answer-due :
    (t : MissTxn) (ts : List MissTxn) (c : DcacheModel)
    → t.delay ≡ 0
    → (Dcache.answer true (t ∷ ts) c).pending_q ≡ ts
unfolding Dcache.answer
answer-due t ts c h = ground arith

answer-shorter :
    (n : ℕ) (ts : List MissTxn) (c : DcacheModel)
    → all_within 0 ts ≡ true
    → length ts ≤ suc n
    → length ((Dcache.answer true ts c).pending_q) ≤ n
unfolding Dcache.answer
answer-shorter n [] c h l = omega arith
answer-shorter n (t ∷ ts) c h l = rw (answer-due t ts c (ground arith)) (omega arith)

requests-quiet : (xs : List Cycle) → all_quiet xs ≡ true → requests xs ≡ []
unfolding requests Dcache.requested
requests-quiet [] q = refl
requests-quiet (x ∷ xs) q =
    let v : x.wires.miss_req_valid_o ≡ false = ground arith in
    rw v (requests-quiet xs (ground arith))

-- A queue whose times are all but up shrinks by one in every quiet cycle.
drained :
    (xs : List Cycle) (c : DcacheModel)
    → all_quiet xs ≡ true
    → all_within 1 c.pending_q ≡ true
    → length c.pending_q ≤ length xs
    → (after xs c).pending_q ≡ []
unfolding after
drained [] c q w l = empty c.pending_q l
  where
    empty : (ts : List MissTxn) → length ts ≤ 0 → ts ≡ []
    empty [] h = refl
    empty (t ∷ ts) h = absurd (omega arith)
drained (x ∷ xs) c q w l =
    let step = quiet x.mem x.wires c (ground arith) (ground arith) in
    let cleared : DcacheModel = record c { refill_pulse = false } in
    let ts = map Dcache.count_down c.pending_q in
    let zero_left = count_down-within 0 c.pending_q w in
    let (within, _) = answer-within 0 ts cleared zero_left in
    let next = Dcache.answer true ts cleared in
    rw (after, step)
      (drained xs next (ground arith) (wider next.pending_q within) (
        answer-shorter (length xs) ts cleared zero_left
          (omega (arith, length-map Dcache.count_down c.pending_q))))
  where
    wider : (ts : List MissTxn) → all_within 0 ts ≡ true → all_within 1 ts ≡ true
    wider [] h = refl
    wider (t ∷ ts) h = let r = wider ts (ground arith) in ground arith

-- One cycle more brings the times down to that.
empties :
    (xs : List Cycle) (c : DcacheModel)
    → all_quiet xs ≡ true
    → all_within 2 c.pending_q ≡ true
    → length c.pending_q < length xs
    → (after xs c).pending_q ≡ []
unfolding after
empties [] c q w l = absurd (omega arith)
empties (x ∷ xs) c q w l =
    let step = quiet x.mem x.wires c (ground arith) (ground arith) in
    let cleared : DcacheModel = record c { refill_pulse = false } in
    let ts = map Dcache.count_down c.pending_q in
    let (within, shorter) = answer-within 1 ts cleared (count_down-within 1 c.pending_q w) in
    rw (after, step)
      (drained xs (Dcache.answer true ts cleared) (ground arith) within
        (omega (arith, shorter, length-map Dcache.count_down c.pending_q)))

-- Every request is answered: when the cache stays ready and asks for nothing more, a queue of `n`
-- requests that have at most the initial delay of 2 left is empty after `n + 1` cycles or more, and
-- what has been delivered is the whole queue in order.
pub quiet-delivers :
    (xs : List Cycle) (c : DcacheModel)
    → all_quiet xs ≡ true
    → all_within 2 c.pending_q ≡ true
    → length c.pending_q < length xs
    → ((after xs c).pending_q ≡ []) × (deliveries xs c ≡ map request c.pending_q)
quiet-delivers xs c q w l =
    let e = empties xs c q w l in
    (
      e,
      sym (append_nil (deliveries xs c))
          ∙ ap (λ ts. deliveries xs c ++ map request ts) (sym e)
          ∙ deliveries-fifo xs c
          ∙ ap (λ rs. map request c.pending_q ++ rs) (requests-quiet xs q)
          ∙ append_nil (map request c.pending_q),
    )
