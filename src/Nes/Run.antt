-- ===== src/Nes/Run.antt =====
-- The life cycle of the processor, cpu.c: `cpu_init`, `cpu_reset`, `cpu_interrupt` and `cpu_run`.
-- The loop of `cpu_run` takes fuel, one unit for each instruction; `none` is fuel that ran out.
pub mod Progress
use Prim.Native.Nat.{bit_or}
use triathlon.Prelude.{
  ℕ, zero, suc, ◌+◌, ◌-◌, ◌/◌, ◌^◌, ◌==◌, if◌then◌else◌, Option, none, some, List, [], ◌∷◌,
}
use triathlon.Prelude.Words.{u8, u64, add_int}
use triathlon.Nes.State.{Machine, Cpu}
use triathlon.Nes.Common.{common_bit_set}
use triathlon.Nes.Ppu.{ppu_generates_nmi}
use triathlon.Nes.Memory.{memory_readb, cpu_stack_pushb, cpu_stack_pushw, set_sp}
use triathlon.Nes.Cpu.{
  set_pc, set_p, unused_bp, cpu_unset_flag, cpu_reset_interrupt_address, cpu_nmi_interrupt_address,
}
use triathlon.Nes.Opcodes.{Row, address_mode, handle}
use triathlon.Nes.Opcodes.Rows.{rows}

-- What the arrays hold for an instruction code once the lines of `cpu_init` have run in order: the
-- last assignment, and `none` for the NULL and 0 of an entry that no line assigns.
unfoldable pub assigned : List Row → ℕ → Option Row
assigned [] op = none
assigned (r ∷ rs) op = elim (assigned rs op) [
  | some q ↦ some q
  | none ↦ if r.code == op then some r else none
]

unfoldable pub cpu_op : ℕ → Option Row
cpu_op op = assigned rows op

-- `cpu_op_cycles[op_code]`.
unfoldable pub cycles_of : Option Row → ℕ
cycles_of none = 0
cycles_of (some r) = r.cycles

-- The end of `cpu_init`; `cpu_op` stands for the rest of it.
unfoldable pub cpu_init : Machine → Machine
cpu_init s = record s { cpu = record (s.cpu) { p = 0x24; sp = 0x00; a = 0; x = 0; y = 0 } }

unfoldable pub cpu_reset : Machine → Machine
unfolding set_sp
cpu_reset s =
    let (w, s1) = cpu_reset_interrupt_address s in
    let s2 = set_pc w s1 in let s3 = set_sp (s2.cpu.sp + 253) s2 in set_p (bit_or s3.cpu.p 0x04) s3

unfoldable pub cpu_interrupt : Machine → Machine
cpu_interrupt s =
    if ppu_generates_nmi s.ppu
    then (let s1 = cpu_unset_flag unused_bp (set_p (bit_or s.cpu.p 0x04) s) in
        let s2 = cpu_stack_pushw s1.cpu.pc s1 in
        let s3 = cpu_stack_pushb s2.cpu.p s2 in
        let (w, s4) = cpu_nmi_interrupt_address s3 in set_pc w s4)
    else s

unfoldable pub cpu_clock : Machine → ℕ
cpu_clock s = s.cpu_cycles

-- `op_code = memory_readb(cpu.PC++)`.
unfoldable pub fetch : Machine → Machine
fetch s =
    let (op, s') = memory_readb s.cpu.pc (set_pc (s.cpu.pc + 1) s) in record s' { op_code = op }

unfoldable pub execute : Option Row → Machine → Machine
execute none s = s
execute (some r) s = handle r.handler (address_mode r.mode s)

-- One round of the loop: the cycles that it charges, and the state after it.
unfoldable pub cpu_round : Machine → ℕ × Machine
cpu_round s0 =
    let s1 = fetch s0 in
    let row = cpu_op s1.op_code in
    let s2 = execute row s1 in
    let spent = add_int (cycles_of row) s2.op_cycles in
    (spent, record s2 { cpu_cycles = u64 (s2.cpu_cycles + (2 ^ 64 - spent)); op_cycles = 0 })

-- The loop ends once `cycles` is not above 0, and does not use it after that: the subtraction may
-- stop at 0.
unfoldable pub run_loop : ℕ → ℕ → Machine → Option Machine
run_loop fuel zero s = some s
run_loop zero (suc cycles) s = none
run_loop (suc fuel) (suc cycles) s =
    let (spent, s') = cpu_round s in run_loop fuel (suc cycles - spent) s'

-- `cpu_run(cycles)` for `cycles` from 0 on, as every caller passes it.
unfoldable pub cpu_run : ℕ → ℕ → Machine → Option Machine
cpu_run fuel cycles s = run_loop fuel (cycles / 3) s
