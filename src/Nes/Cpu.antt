-- ===== src/Nes/Cpu.antt =====
-- What the instructions of cpu.c share: the flags, the macros and the interrupt vectors.
pub mod Flags
pub mod Status
pub mod Addition
pub mod Subtraction
pub mod Comparison
use Prim.Native.Nat.{bit_and, bit_or}
use triathlon.Prelude.{ℕ, ◌+◌, ◌^◌, Bool, not, ◌==◌, ltb, if◌then◌else◌}
use triathlon.Prelude.Bits.{bit_not}
use triathlon.Prelude.Words.{u8, u16, sub_int, is_neg_int, shr_int, truth}
use triathlon.Nes.State.{Machine, Cpu}
use triathlon.Nes.Common.{common_bit_set, common_set_bitb, common_unset_bitb, common_modify_bitb}
use triathlon.Nes.Memory.{memory_readw}

-- `cpu_p_bp`.
abbrev pub carry_bp : ℕ
carry_bp = 0

abbrev pub zero_bp : ℕ
zero_bp = 1

abbrev pub interrupt_bp : ℕ
interrupt_bp = 2

abbrev pub decimal_bp : ℕ
decimal_bp = 3

abbrev pub break_bp : ℕ
break_bp = 4

abbrev pub unused_bp : ℕ
unused_bp = 5

abbrev pub overflow_bp : ℕ
overflow_bp = 6

abbrev pub negative_bp : ℕ
negative_bp = 7

-- Assignments to the registers, cut to their widths.
abbrev pub set_pc : ℕ → Machine → Machine
set_pc v s = record s { cpu = record (s.cpu) { pc = u16 v } }

abbrev pub set_a : ℕ → Machine → Machine
set_a v s = record s { cpu = record (s.cpu) { a = u8 v } }

abbrev pub set_x : ℕ → Machine → Machine
set_x v s = record s { cpu = record (s.cpu) { x = u8 v } }

abbrev pub set_y : ℕ → Machine → Machine
set_y v s = record s { cpu = record (s.cpu) { y = u8 v } }

abbrev pub set_p : ℕ → Machine → Machine
set_p v s = record s { cpu = record (s.cpu) { p = u8 v } }

-- The macros.
abbrev pub cpu_flag_set : ℕ → Machine → Bool
cpu_flag_set flag s = common_bit_set s.cpu.p flag

abbrev pub cpu_modify_flag : ℕ → Bool → Machine → Machine
cpu_modify_flag flag value s = set_p (common_modify_bitb s.cpu.p flag value) s

abbrev pub cpu_set_flag : ℕ → Machine → Machine
cpu_set_flag flag s = set_p (common_set_bitb s.cpu.p flag) s

abbrev pub cpu_unset_flag : ℕ → Machine → Machine
cpu_unset_flag flag s = set_p (common_unset_bitb s.cpu.p flag) s

-- `cpu_zn_flag_table`: `zero_flag` at 0, 127 zeros, then `negative_flag`.
unfoldable pub cpu_zn_flag_table : ℕ → ℕ
cpu_zn_flag_table value = if value == 0 then 0x02 else if ltb value 128 then 0 else 0x80

-- `(cpu.P & ~(zero_flag | negative_flag)) | cpu_zn_flag_table[value]`.
unfoldable pub zn_flags : ℕ → ℕ → ℕ
zn_flags p value = bit_or (bit_and p (bit_not 32 (bit_or 0x02 0x80))) (cpu_zn_flag_table value)

abbrev pub cpu_update_zn_flags : ℕ → Machine → Machine
cpu_update_zn_flags value s = set_p (zn_flags s.cpu.p value) s

abbrev pub cpu_branch : Bool → Machine → Machine
cpu_branch flag s = if flag then set_pc s.op_address s else s

unfoldable pub cpu_compare : ℕ → Machine → Machine
cpu_compare reg s =
    let result = sub_int reg s.op_value in
    cpu_modify_flag negative_bp (truth (bit_and (shr_int result 7) 1))
      (cpu_modify_flag zero_bp (result == 0) (cpu_modify_flag carry_bp (not (is_neg_int result)) s))

unfoldable pub cpu_nmi_interrupt_address : Machine → ℕ × Machine
cpu_nmi_interrupt_address s = memory_readw 0xfffa s

unfoldable pub cpu_reset_interrupt_address : Machine → ℕ × Machine
cpu_reset_interrupt_address s = memory_readw 0xfffc s

unfoldable pub cpu_irq_interrupt_address : Machine → ℕ × Machine
cpu_irq_interrupt_address s = memory_readw 0xfffe s
