-- ===== src/Nes/Opcodes.antt =====
-- The instruction table that `cpu_init` fills. The function pointers of the two arrays are the
-- values of `Handler` and `Mode`; the names, which only a debugger would print, are left out.
pub mod Rows
pub mod Charge
use triathlon.Prelude.{
  ℕ, Bool, true, false, ◌==◌, if◌then◌else◌, Option, none, some, List, [], ◌∷◌, ◌++◌,
}
use triathlon.Nes.State.{Machine}
use triathlon.Nes.Addressing.{
  cpu_address_implied, cpu_address_indirect_x, cpu_address_zero_page, cpu_address_immediate,
  cpu_address_absolute, cpu_address_relative, cpu_address_indirect_y, cpu_address_zero_page_x,
  cpu_address_absolute_y, cpu_address_absolute_x, cpu_address_indirect, cpu_address_zero_page_y,
}
use triathlon.Nes.Ops.{
  cpu_op_ora, cpu_op_asl, cpu_op_asla, cpu_op_and, cpu_op_bit, cpu_op_rol, cpu_op_rola, cpu_op_eor,
  cpu_op_lsr, cpu_op_lsra, cpu_op_adc, cpu_op_ror, cpu_op_rora, cpu_op_sta, cpu_op_sty, cpu_op_stx,
  cpu_op_txa, cpu_op_tya, cpu_op_txs, cpu_op_ldy, cpu_op_lda, cpu_op_ldx, cpu_op_tay, cpu_op_tax,
  cpu_op_tsx, cpu_op_sbc, cpu_op_nop,
}
use triathlon.Nes.Ops.Control.{
  cpu_op_bcs, cpu_op_beq, cpu_op_bmi, cpu_op_bvs, cpu_op_bne, cpu_op_bcc, cpu_op_bpl, cpu_op_bvc,
  cpu_op_jmp, cpu_op_jsr, cpu_op_rts, cpu_op_brk, cpu_op_rti, cpu_op_clc, cpu_op_cld, cpu_op_cli,
  cpu_op_clv, cpu_op_sec, cpu_op_sed, cpu_op_sei, cpu_op_cmp, cpu_op_cpx, cpu_op_cpy, cpu_op_inc,
  cpu_op_inx, cpu_op_iny, cpu_op_dec, cpu_op_dex, cpu_op_dey, cpu_op_php, cpu_op_pha, cpu_op_pla,
  cpu_op_plp,
}
use triathlon.Nes.Ops.Extended.{
  cpu_op_aso, cpu_op_axa, cpu_op_axs, cpu_op_dcm, cpu_op_ins, cpu_op_lax, cpu_op_lse, cpu_op_rla,
  cpu_op_rra,
}

pub data Mode : Type 0 where
  implied indirect_x zero_page immediate absolute relative indirect_y zero_page_x absolute_y : Mode
  absolute_x indirect zero_page_y : Mode

-- `fe` is the instruction that does nothing, `____FE____`.
pub data Handler : Type 0 where
  nop brk ora asl php asla bpl clc jsr and bit rol plp rola bmi sec rti eor lsr pha lsra jmp :
      Handler
  bvc cli rts adc ror pla rora bvs sei sta sty stx dey txa bcc tya txs ldy lda ldx tay tax bcs :
      Handler
  clv tsx cpy cmp dec iny dex bne cld cpx sbc inc inx beq sed aso rla lse rra axs axa lax dcm :
      Handler
  ins fe : Handler

unfoldable pub address_mode : Mode → Machine → Machine
address_mode implied s = cpu_address_implied s
address_mode indirect_x s = cpu_address_indirect_x s
address_mode zero_page s = cpu_address_zero_page s
address_mode immediate s = cpu_address_immediate s
address_mode absolute s = cpu_address_absolute s
address_mode relative s = cpu_address_relative s
address_mode indirect_y s = cpu_address_indirect_y s
address_mode zero_page_x s = cpu_address_zero_page_x s
address_mode absolute_y s = cpu_address_absolute_y s
address_mode absolute_x s = cpu_address_absolute_x s
address_mode indirect s = cpu_address_indirect s
address_mode zero_page_y s = cpu_address_zero_page_y s

unfoldable pub handle : Handler → Machine → Machine
handle brk s = cpu_op_brk s
handle ora s = cpu_op_ora s
handle asl s = cpu_op_asl s
handle php s = cpu_op_php s
handle asla s = cpu_op_asla s
handle bpl s = cpu_op_bpl s
handle clc s = cpu_op_clc s
handle jsr s = cpu_op_jsr s
handle and s = cpu_op_and s
handle bit s = cpu_op_bit s
handle rol s = cpu_op_rol s
handle plp s = cpu_op_plp s
handle rola s = cpu_op_rola s
handle bmi s = cpu_op_bmi s
handle sec s = cpu_op_sec s
handle rti s = cpu_op_rti s
handle eor s = cpu_op_eor s
handle lsr s = cpu_op_lsr s
handle pha s = cpu_op_pha s
handle lsra s = cpu_op_lsra s
handle jmp s = cpu_op_jmp s
handle bvc s = cpu_op_bvc s
handle cli s = cpu_op_cli s
handle rts s = cpu_op_rts s
handle adc s = cpu_op_adc s
handle ror s = cpu_op_ror s
handle pla s = cpu_op_pla s
handle rora s = cpu_op_rora s
handle bvs s = cpu_op_bvs s
handle sei s = cpu_op_sei s
handle sta s = cpu_op_sta s
handle sty s = cpu_op_sty s
handle stx s = cpu_op_stx s
handle dey s = cpu_op_dey s
handle txa s = cpu_op_txa s
handle bcc s = cpu_op_bcc s
handle tya s = cpu_op_tya s
handle txs s = cpu_op_txs s
handle ldy s = cpu_op_ldy s
handle lda s = cpu_op_lda s
handle ldx s = cpu_op_ldx s
handle tay s = cpu_op_tay s
handle tax s = cpu_op_tax s
handle bcs s = cpu_op_bcs s
handle clv s = cpu_op_clv s
handle tsx s = cpu_op_tsx s
handle cpy s = cpu_op_cpy s
handle cmp s = cpu_op_cmp s
handle dec s = cpu_op_dec s
handle iny s = cpu_op_iny s
handle dex s = cpu_op_dex s
handle bne s = cpu_op_bne s
handle cld s = cpu_op_cld s
handle cpx s = cpu_op_cpx s
handle sbc s = cpu_op_sbc s
handle inc s = cpu_op_inc s
handle inx s = cpu_op_inx s
handle nop s = cpu_op_nop s
handle beq s = cpu_op_beq s
handle sed s = cpu_op_sed s
handle aso s = cpu_op_aso s
handle rla s = cpu_op_rla s
handle lse s = cpu_op_lse s
handle rra s = cpu_op_rra s
handle axs s = cpu_op_axs s
handle axa s = cpu_op_axa s
handle lax s = cpu_op_lax s
handle dcm s = cpu_op_dcm s
handle ins s = cpu_op_ins s
handle fe s = s

-- One line of `cpu_init`.
pub record Row : Type 0 where
  pub code : ℕ
  pub cycles : ℕ
  pub handler : Handler
  pub mode : Mode
  pub in_base_instruction_set : Bool

-- CPU_OP_BIS, CPU_OP_EIS and CPU_OP_NII.
abbrev pub bis : ℕ → ℕ → Handler → Mode → Row
bis o c f a = record { code = o; cycles = c; handler = f; mode = a; in_base_instruction_set = true }

abbrev pub eis : ℕ → ℕ → Handler → Mode → Row
eis o c f a = record {
  code = o;
  cycles = c;
  handler = f;
  mode = a;
  in_base_instruction_set = false;
}

abbrev pub nii : ℕ → Mode → Row
nii o a = record { code = o; cycles = 1; handler = fe; mode = a; in_base_instruction_set = false }
