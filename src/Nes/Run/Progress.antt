-- ===== src/Nes/Run/Progress.antt =====
-- The loop of `cpu_run`: when it ends, and how many cycles it charges.
use triathlon.Prelude.{
  ℕ, zero, suc, ◌+◌, ◌-◌, ◌/◌, ◌%◌, ◌^◌, ◌≤◌, ◌<◌, ◌≡◌, refl, ◌∙◌, ap, Bool, true, ◌&&◌, arith, leb,
  Option, none, some, List, [], ◌∷◌,
}
use triathlon.Prelude.Words.{add_int, u64}
use triathlon.Nes.State.{Machine}
use triathlon.Nes.Memory.Frame.{clocks, memory_readb-Keeps}
use triathlon.Nes.Opcodes.{Row, address_mode}
use triathlon.Nes.Opcodes.Rows.{rows}
use triathlon.Nes.Opcodes.Charge.{clocks-handle, address_mode-Extra}
use triathlon.Nes.Run.{assigned, cpu_op, cycles_of, cpu_round, fetch, execute, run_loop, cpu_run}

all_rows : (Row → Bool) → List Row → Bool
all_rows p [] = true
all_rows p (r ∷ rs) = p r && all_rows p rs

assigned-all :
    (p : Row → Bool) (rs : List Row) (op : ℕ) (r : Row)
    → all_rows p rs ≡ true
    → assigned rs op ≡ some r
    → p r ≡ true
unfolding all_rows assigned
assigned-all p [] op r h e = cc
assigned-all p (q ∷ rs) op r h e = ground (arith, assigned-all p rs op r)

-- Every line of `cpu_init` charges 1 to 8 cycles.
abbrev charges : Row → Bool
charges r = leb 1 r.cycles && leb r.cycles 8

rows-charge : all_rows charges rows ≡ true
unfolding all_rows rows
rows-charge = refl

pub cycles-bounds : (op : ℕ) (r : Row) → cpu_op op ≡ some r → (1 ≤ r.cycles) × (r.cycles ≤ 8)
unfolding cpu_op
cycles-bounds op r e = ground (arith, assigned-all charges rows op r rows-charge e)

clocks-fetch : (s : Machine) → clocks (fetch s) ≡ clocks s
unfolding fetch
clocks-fetch s = (memory_readb-Keeps s.cpu.pc _).clocks

-- The clocks after an assigned instruction, before the round charges them.
execute-clocks :
    (r : Row) (s : Machine)
    → s.op_cycles ≡ 0
    → ((execute (some r) s).op_cycles ≤ 1) × ((execute (some r) s).cpu_cycles ≡ s.cpu_cycles)
unfolding execute
execute-clocks r s h =
    let extra = address_mode-Extra r.mode s h in
    let kept = clocks-handle r.handler (address_mode r.mode s) in
    (omega (arith, ap (λ t. t.0) kept), ap (λ t. t.1) kept ∙ extra.1)

-- A round that fetches an assigned code charges 1 to 9 cycles to both counts.
pub record Charged (s : Machine) (out : ℕ × Machine) : Type 0 where
  pub some_cycles : 1 ≤ out.0
  pub few_cycles : out.0 ≤ 9
  pub cleared : out.1.op_cycles ≡ 0
  pub counted : (out.1.cpu_cycles + out.0) % 2 ^ 64 ≡ s.cpu_cycles % 2 ^ 64

round-Charged :
    (s : Machine) (r : Row)
    → s.op_cycles ≡ 0
    → cpu_op (fetch s).op_code ≡ some r
    → Charged s (cpu_round s)
unfolding cpu_round cycles_of
round-Charged s r h e =
    let f = clocks-fetch s in
    let done = execute-clocks r (fetch s) (ap (λ t. t.0) f ∙ h) in
    let bounds = cycles-bounds (fetch s).op_code r e in
    rw e (record {
      some_cycles = omega arith;
      few_cycles = omega arith;
      cleared = refl;
      counted = omega (arith, done.1 ∙ ap (λ t. t.1) f);
    })

-- The first `n` rounds from `s` fetch codes that `cpu_init` assigns.
abbrev pub Runs : ℕ → Machine → Type 0
Runs zero s = Unit
Runs (suc n) s = ((r : Row) × (cpu_op (fetch s).op_code ≡ some r)) × Runs n (cpu_round s).1

-- How a run of the loop for `cycles` cycles has ended.
pub record Ended (cycles : ℕ) (s : Machine) (out : Option Machine) : Type 0 where
  pub final : Machine
  pub total : ℕ
  pub returns : out ≡ some final
  pub enough : cycles ≤ total
  pub no_more : total ≤ cycles + 8
  pub idle : cycles ≡ 0 → total ≡ 0
  pub counted : (final.cpu_cycles + total) % 2 ^ 64 ≡ s.cpu_cycles % 2 ^ 64

no_overshoot :
    (c spent total : ℕ)
    → spent ≤ 9
    → total ≤ (suc c - spent) + 8
    → (suc c - spent ≡ 0 → total ≡ 0)
    → spent + total ≤ suc c + 8
no_overshoot c spent total few more idle = grind arith

run_loop-Ended :
    (n cycles : ℕ) (s : Machine)
    → cycles ≤ n
    → s.op_cycles ≡ 0
    → Runs n s
    → Ended cycles s (run_loop n cycles s)
unfolding run_loop
run_loop-Ended n zero s le h runs = record {
  final = s;
  total = 0;
  returns = refl;
  enough = omega arith;
  no_more = omega arith;
  idle = λ _. refl;
  counted = omega arith;
}
run_loop-Ended zero (suc c) s le h runs = absurd (omega arith)
run_loop-Ended (suc n) (suc c) s le h runs =
    let charged = round-Charged s runs.0.0 h runs.0.1 in
    let spent = (cpu_round s).0 in
    let rest =
      run_loop-Ended n (suc c - spent) (cpu_round s).1 (omega arith) charged.cleared runs.1 in
    record {
      final = rest.final;
      total = spent + rest.total;
      returns = rest.returns;
      enough = omega arith;
      no_more = no_overshoot c spent rest.total charged.few_cycles rest.no_more rest.idle;
      idle = λ e. absurd (omega arith);
      counted = omega arith;
    }

-- `cpu_run` returns after at most one round for each cycle that it is given, if its rounds fetch
-- codes that `cpu_init` assigns: it charges at least a third of `cycles`, the part that the
-- processor is due, and at most 8 more, and the count of all cycles goes down by that total,
-- modulo 2 ^ 64.
pub cpu_run-Ended :
    (fuel cycles : ℕ) (s : Machine)
    → cycles / 3 ≤ fuel
    → s.op_cycles ≡ 0
    → Runs fuel s
    → Ended (cycles / 3) s (cpu_run fuel cycles s)
unfolding cpu_run
cpu_run-Ended fuel cycles s le h runs = run_loop-Ended fuel (cycles / 3) s le h runs

-- A code that `cpu_init` does not assign is skipped and charges nothing: the round is the fetch.
pub unassigned_round :
    (s : Machine)
    → s.op_cycles ≡ 0
    → s.cpu_cycles < 2 ^ 64
    → cpu_op (fetch s).op_code ≡ none
    → cpu_round s ≡ (0, fetch s)
unfolding cpu_round cycles_of execute
unassigned_round s h k e =
    let f = clocks-fetch s in
    let idle : add_int 0 (fetch s).op_cycles ≡ 0 = omega (arith, ap (λ t. t.0) f) in
    let count : u64 ((fetch s).cpu_cycles + (2 ^ 64 - 0)) ≡ (fetch s).cpu_cycles =
      omega (arith, ap (λ t. t.1) f) in
    let zero_now : 0 ≡ (fetch s).op_cycles = omega (arith, ap (λ t. t.0) f) in
    rw (e, idle, count, zero_now) refl
