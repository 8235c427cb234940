-- ===== src/Nes/Ops/Extended.antt =====
-- The instructions of the extended set: two base instructions in a row, or a store.
use Prim.Native.Nat.{bit_and}
use triathlon.Prelude.Words.{add_int, sub_int, shr_int}
use triathlon.Nes.State.{Machine}
use triathlon.Nes.Memory.{memory_writeb}
use triathlon.Nes.Cpu.{set_a, set_x, cpu_update_zn_flags}
use triathlon.Nes.Ops.{
  cpu_op_asl, cpu_op_ora, cpu_op_sbc, cpu_op_lsr, cpu_op_eor, cpu_op_rol, cpu_op_and, cpu_op_ror,
  cpu_op_adc,
}
use triathlon.Nes.Ops.Control.{cpu_op_cmp}

unfoldable pub cpu_op_aso : Machine → Machine
cpu_op_aso s = cpu_op_ora (cpu_op_asl s)

unfoldable pub cpu_op_axa : Machine → Machine
cpu_op_axa s =
    memory_writeb s.op_address (bit_and (bit_and s.cpu.a s.cpu.x) (shr_int s.op_address 8)) s

unfoldable pub cpu_op_axs : Machine → Machine
cpu_op_axs s = memory_writeb s.op_address (bit_and s.cpu.a s.cpu.x) s

unfoldable pub cpu_op_dcm : Machine → Machine
cpu_op_dcm s =
    let s' = record s { op_value = bit_and (sub_int s.op_value 1) 0xff } in
    cpu_op_cmp (memory_writeb s'.op_address s'.op_value s')

unfoldable pub cpu_op_ins : Machine → Machine
cpu_op_ins s =
    let s' = record s { op_value = bit_and (add_int s.op_value 1) 0xff } in
    cpu_op_sbc (memory_writeb s'.op_address s'.op_value s')

unfoldable pub cpu_op_lax : Machine → Machine
cpu_op_lax s =
    let s' = set_x s.op_value s in let s'' = set_a s'.cpu.x s' in cpu_update_zn_flags s''.cpu.a s''

unfoldable pub cpu_op_lse : Machine → Machine
cpu_op_lse s = cpu_op_eor (cpu_op_lsr s)

unfoldable pub cpu_op_rla : Machine → Machine
cpu_op_rla s = cpu_op_and (cpu_op_rol s)

unfoldable pub cpu_op_rra : Machine → Machine
cpu_op_rra s = cpu_op_adc (cpu_op_ror s)
