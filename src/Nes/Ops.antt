-- ===== src/Nes/Ops.antt =====
-- The instructions of the base set, cpu.c. `int` results are 32-bit patterns.
pub mod Control
pub mod Extended
pub mod Calls
use Prim.Native.Nat.{bit_and, bit_or, bit_xor}
use triathlon.Prelude.{ℕ, ◌+◌, ◌-◌, ◌*◌, ◌/◌, ◌^◌, Bool, true, false, not, ◌==◌, ltb, if◌then◌else◌}
use triathlon.Prelude.Bits.{bit_not}
use triathlon.Prelude.Words.{u8, u32, add_int, sub_int, shr_int, lt_int, truth, b2n, ◌<<◌, ◌>>◌}
use triathlon.Nes.State.{Machine, Cpu}
use triathlon.Nes.Memory.{
  memory_writeb, cpu_stack_pushb, cpu_stack_pushw, cpu_stack_popb, cpu_stack_popw, set_sp,
}
use triathlon.Nes.Cpu.{
  carry_bp, zero_bp, interrupt_bp, decimal_bp, overflow_bp, negative_bp, set_pc, set_a, set_x,
  set_y, set_p, cpu_flag_set, cpu_modify_flag, cpu_set_flag, cpu_unset_flag, cpu_update_zn_flags,
  cpu_branch, cpu_compare, cpu_nmi_interrupt_address,
}

unfoldable pub cpu_op_nop : Machine → Machine
cpu_op_nop s = s

-- Addition and subtraction.

unfoldable pub cpu_op_adc : Machine → Machine
cpu_op_adc s =
    let result = add_int (add_int s.cpu.a s.op_value) (if cpu_flag_set carry_bp s then 1 else 0) in
    let s1 = cpu_modify_flag carry_bp (truth (bit_and result 0x100)) s in
    let same = bit_not 32 (bit_xor s1.cpu.a s1.op_value) in
    let v = bit_and (bit_and same (bit_xor s1.cpu.a result)) 0x80 in
    let s2 = set_a (bit_and result 0xff) (cpu_modify_flag overflow_bp (truth v) s1) in
    cpu_update_zn_flags s2.cpu.a s2

unfoldable pub cpu_op_sbc : Machine → Machine
cpu_op_sbc s =
    let result = sub_int (sub_int s.cpu.a s.op_value) (if cpu_flag_set carry_bp s then 0 else 1) in
    let s1 = cpu_modify_flag carry_bp (not (truth (bit_and result 0x100))) s in
    let v = bit_and (bit_and (bit_xor s1.cpu.a s1.op_value) (bit_xor s1.cpu.a result)) 0x80 in
    let s2 = set_a (bit_and result 0xff) (cpu_modify_flag overflow_bp (truth v) s1) in
    cpu_update_zn_flags s2.cpu.a s2

-- Logic. `logic v` is `cpu_update_zn_flags(cpu.A = v)`.

abbrev logic : ℕ → Machine → Machine
logic v s = let s' = set_a v s in cpu_update_zn_flags s'.cpu.a s'

unfoldable pub cpu_op_and : Machine → Machine
cpu_op_and s = logic (bit_and s.cpu.a s.op_value) s

unfoldable pub cpu_op_bit : Machine → Machine
cpu_op_bit s =
    let s' = cpu_modify_flag zero_bp (not (truth (bit_and s.cpu.a s.op_value))) s in
    set_p (bit_or (bit_and s'.cpu.p 0x3f) (bit_and 0xc0 s'.op_value)) s'

unfoldable pub cpu_op_eor : Machine → Machine
cpu_op_eor s = logic (bit_xor s.cpu.a s.op_value) s

unfoldable pub cpu_op_ora : Machine → Machine
cpu_op_ora s = logic (bit_or s.cpu.a s.op_value) s

-- Shifts of the accumulator, and of a byte of memory. `set_value` assigns `op_value`.

abbrev set_value : ℕ → Machine → Machine
set_value v s = record s { op_value = v }

abbrev store_value : Machine → Machine
store_value s = memory_writeb s.op_address s.op_value s

unfoldable pub cpu_op_asla : Machine → Machine
cpu_op_asla s =
    let s' = cpu_modify_flag carry_bp (truth (bit_and s.cpu.a 0x80)) s in logic (s'.cpu.a << 1) s'

unfoldable pub cpu_op_asl : Machine → Machine
cpu_op_asl s =
    let s' = cpu_modify_flag carry_bp (truth (bit_and s.op_value 0x80)) s in
    let v = bit_and (u32 (s'.op_value << 1)) 0xff in
    store_value (cpu_update_zn_flags v (set_value v s'))

unfoldable pub cpu_op_lsra : Machine → Machine
cpu_op_lsra s =
    let value = s.cpu.a >> 1 in
    let s' = cpu_modify_flag carry_bp (truth (bit_and s.cpu.a 0x01)) s in
    cpu_update_zn_flags value (set_a (bit_and value 0xff) s')

unfoldable pub cpu_op_lsr : Machine → Machine
cpu_op_lsr s =
    let s' = cpu_modify_flag carry_bp (truth (bit_and s.op_value 0x01)) s in
    let v = bit_and (shr_int s'.op_value 1) 0xff in
    cpu_update_zn_flags v (store_value (set_value v s'))

unfoldable pub cpu_op_rola : Machine → Machine
cpu_op_rola s =
    let value = bit_or (s.cpu.a << 1) (if cpu_flag_set carry_bp s then 1 else 0) in
    logic (bit_and value 0xff) (cpu_modify_flag carry_bp (ltb 0xff value) s)

unfoldable pub cpu_op_rol : Machine → Machine
cpu_op_rol s =
    let value = bit_or (u32 (s.op_value << 1)) (if cpu_flag_set carry_bp s then 1 else 0) in
    let s' = cpu_modify_flag carry_bp (lt_int 0xff value) s in
    let v = bit_and value 0xff in cpu_update_zn_flags v (store_value (set_value v s'))

-- `carry` is a byte that holds 0 or 1.
unfoldable pub rotated_right : Bool → ℕ → ℕ
rotated_right carry value = bit_or (shr_int value 1) (b2n carry << 7)

unfoldable pub cpu_op_rora : Machine → Machine
cpu_op_rora s =
    let carry = cpu_flag_set carry_bp s in
    let s1 = cpu_modify_flag carry_bp (truth (bit_and s.cpu.a 0x01)) s in
    let s2 = set_a (rotated_right carry s1.cpu.a) s1 in
    cpu_modify_flag negative_bp carry (cpu_modify_flag zero_bp (s2.cpu.a == 0) s2)

unfoldable pub cpu_op_ror : Machine → Machine
cpu_op_ror s =
    let carry = cpu_flag_set carry_bp s in
    let s1 = cpu_modify_flag carry_bp (truth (bit_and s.op_value 0x01)) s in
    let s2 = set_value (bit_and (rotated_right carry s1.op_value) 0xff) s1 in
    store_value (cpu_modify_flag negative_bp carry (cpu_modify_flag zero_bp (s2.op_value == 0) s2))

-- Loads, stores and transfers.

unfoldable pub cpu_op_lda : Machine → Machine
cpu_op_lda s = logic s.op_value s

abbrev into_x : ℕ → Machine → Machine
into_x v s = let s' = set_x v s in cpu_update_zn_flags s'.cpu.x s'

abbrev into_y : ℕ → Machine → Machine
into_y v s = let s' = set_y v s in cpu_update_zn_flags s'.cpu.y s'

unfoldable pub cpu_op_ldx : Machine → Machine
cpu_op_ldx s = into_x s.op_value s

unfoldable pub cpu_op_ldy : Machine → Machine
cpu_op_ldy s = into_y s.op_value s

unfoldable pub cpu_op_sta : Machine → Machine
cpu_op_sta s = memory_writeb s.op_address s.cpu.a s

unfoldable pub cpu_op_stx : Machine → Machine
cpu_op_stx s = memory_writeb s.op_address s.cpu.x s

unfoldable pub cpu_op_sty : Machine → Machine
cpu_op_sty s = memory_writeb s.op_address s.cpu.y s

unfoldable pub cpu_op_tax : Machine → Machine
cpu_op_tax s = into_x s.cpu.a s

unfoldable pub cpu_op_txa : Machine → Machine
cpu_op_txa s = logic s.cpu.x s

unfoldable pub cpu_op_tay : Machine → Machine
cpu_op_tay s = into_y s.cpu.a s

unfoldable pub cpu_op_tya : Machine → Machine
cpu_op_tya s = logic s.cpu.y s

unfoldable pub cpu_op_tsx : Machine → Machine
cpu_op_tsx s = into_x s.cpu.sp s

unfoldable pub cpu_op_txs : Machine → Machine
unfolding set_sp
cpu_op_txs s = set_sp s.cpu.x s
