-- ===== src/Nes/Ops/Control.antt =====
-- The instructions of the base set that branch, jump, count, compare, or use the stack.
use Prim.Native.Nat.{bit_and, bit_or}
use triathlon.Prelude.{◌+◌, not}
use triathlon.Prelude.Words.{u8, add_int, sub_int}
use triathlon.Nes.State.{Machine}
use triathlon.Nes.Memory.{
  memory_writeb, cpu_stack_pushb, cpu_stack_pushw, cpu_stack_popb, cpu_stack_popw,
}
use triathlon.Nes.Cpu.{
  carry_bp, zero_bp, interrupt_bp, decimal_bp, overflow_bp, negative_bp, set_pc, set_a, set_x,
  set_y, set_p, cpu_flag_set, cpu_set_flag, cpu_unset_flag, cpu_update_zn_flags, cpu_branch,
  cpu_compare, cpu_nmi_interrupt_address,
}

-- Branches.

unfoldable pub cpu_op_bcs : Machine → Machine
cpu_op_bcs s = cpu_branch (cpu_flag_set carry_bp s) s

unfoldable pub cpu_op_beq : Machine → Machine
cpu_op_beq s = cpu_branch (cpu_flag_set zero_bp s) s

unfoldable pub cpu_op_bmi : Machine → Machine
cpu_op_bmi s = cpu_branch (cpu_flag_set negative_bp s) s

unfoldable pub cpu_op_bvs : Machine → Machine
cpu_op_bvs s = cpu_branch (cpu_flag_set overflow_bp s) s

unfoldable pub cpu_op_bne : Machine → Machine
cpu_op_bne s = cpu_branch (not (cpu_flag_set zero_bp s)) s

unfoldable pub cpu_op_bcc : Machine → Machine
cpu_op_bcc s = cpu_branch (not (cpu_flag_set carry_bp s)) s

unfoldable pub cpu_op_bpl : Machine → Machine
cpu_op_bpl s = cpu_branch (not (cpu_flag_set negative_bp s)) s

unfoldable pub cpu_op_bvc : Machine → Machine
cpu_op_bvc s = cpu_branch (not (cpu_flag_set overflow_bp s)) s

-- Jumps, subroutines and interrupts. `cpu.PC - 1` is an `int` that the push cuts to a word.

unfoldable pub cpu_op_jmp : Machine → Machine
cpu_op_jmp s = set_pc s.op_address s

unfoldable pub cpu_op_jsr : Machine → Machine
cpu_op_jsr s = let s' = cpu_stack_pushw (sub_int s.cpu.pc 1) s in set_pc s'.op_address s'

unfoldable pub cpu_op_rts : Machine → Machine
cpu_op_rts s = let (w, s') = cpu_stack_popw s in set_pc (w + 1) s'

unfoldable pub cpu_op_brk : Machine → Machine
cpu_op_brk s =
    let s1 = cpu_stack_pushw (sub_int s.cpu.pc 1) s in
    let s2 = cpu_stack_pushb s1.cpu.p s1 in
    let s3 = set_p (bit_or s2.cpu.p (bit_or 0x20 0x10)) s2 in
    let (w, s4) = cpu_nmi_interrupt_address s3 in set_pc w s4

unfoldable pub cpu_op_rti : Machine → Machine
cpu_op_rti s =
    let (p, s1) = cpu_stack_popb s in
    let s2 = set_p (bit_or p 0x20) s1 in let (w, s3) = cpu_stack_popw s2 in set_pc w s3

-- Flags.

unfoldable pub cpu_op_clc : Machine → Machine
cpu_op_clc s = cpu_unset_flag carry_bp s

unfoldable pub cpu_op_cld : Machine → Machine
cpu_op_cld s = cpu_unset_flag decimal_bp s

unfoldable pub cpu_op_cli : Machine → Machine
cpu_op_cli s = cpu_unset_flag interrupt_bp s

unfoldable pub cpu_op_clv : Machine → Machine
cpu_op_clv s = cpu_unset_flag overflow_bp s

unfoldable pub cpu_op_sec : Machine → Machine
cpu_op_sec s = cpu_set_flag carry_bp s

unfoldable pub cpu_op_sed : Machine → Machine
cpu_op_sed s = cpu_set_flag decimal_bp s

unfoldable pub cpu_op_sei : Machine → Machine
cpu_op_sei s = cpu_set_flag interrupt_bp s

-- Comparisons.

unfoldable pub cpu_op_cmp : Machine → Machine
cpu_op_cmp s = cpu_compare s.cpu.a s

unfoldable pub cpu_op_cpx : Machine → Machine
cpu_op_cpx s = cpu_compare s.cpu.x s

unfoldable pub cpu_op_cpy : Machine → Machine
cpu_op_cpy s = cpu_compare s.cpu.y s

-- Increments and decrements.

unfoldable pub cpu_op_inc : Machine → Machine
cpu_op_inc s =
    let result = u8 (add_int s.op_value 1) in
    cpu_update_zn_flags result (memory_writeb s.op_address result s)

unfoldable pub cpu_op_inx : Machine → Machine
cpu_op_inx s = let s' = set_x (s.cpu.x + 1) s in cpu_update_zn_flags s'.cpu.x s'

unfoldable pub cpu_op_iny : Machine → Machine
cpu_op_iny s = let s' = set_y (s.cpu.y + 1) s in cpu_update_zn_flags s'.cpu.y s'

unfoldable pub cpu_op_dec : Machine → Machine
cpu_op_dec s =
    let result = u8 (sub_int s.op_value 1) in
    cpu_update_zn_flags result (memory_writeb s.op_address result s)

unfoldable pub cpu_op_dex : Machine → Machine
cpu_op_dex s = let s' = set_x (s.cpu.x + 255) s in cpu_update_zn_flags s'.cpu.x s'

unfoldable pub cpu_op_dey : Machine → Machine
cpu_op_dey s = let s' = set_y (s.cpu.y + 255) s in cpu_update_zn_flags s'.cpu.y s'

-- The stack.

unfoldable pub cpu_op_php : Machine → Machine
cpu_op_php s = cpu_stack_pushb (bit_or s.cpu.p 0x30) s

unfoldable pub cpu_op_pha : Machine → Machine
cpu_op_pha s = cpu_stack_pushb s.cpu.a s

unfoldable pub cpu_op_pla : Machine → Machine
cpu_op_pla s =
    let (v, s1) = cpu_stack_popb s in let s2 = set_a v s1 in cpu_update_zn_flags s2.cpu.a s2

unfoldable pub cpu_op_plp : Machine → Machine
cpu_op_plp s = let (v, s1) = cpu_stack_popb s in set_p (bit_or (bit_and v 0xef) 0x20) s1
