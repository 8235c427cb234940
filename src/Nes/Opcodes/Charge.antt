-- ===== src/Nes/Opcodes/Charge.antt =====
-- What an instruction charges beside its row of the table.
use Prim.Native.Nat.{bit_and}
use triathlon.Prelude.{ℕ, ◌≤◌, ◌≡◌, refl, ◌∙◌, ap, arith, ◌==◌, Bool-cases, inl, inr}
use triathlon.Nes.State.{Machine}
use triathlon.Nes.Memory.Frame.{
  clocks, memory_readb-Keeps, memory_readw-Keeps, memory_writeb-Keeps, clocks-pushb, clocks-pushw,
  clocks-popb, clocks-popw,
}
use triathlon.Nes.Addressing.{
  cpu_address_implied, cpu_address_indirect_x, cpu_address_zero_page, cpu_address_immediate,
  cpu_address_absolute, cpu_address_relative, cpu_address_indirect_y, cpu_address_zero_page_x,
  cpu_address_absolute_y, cpu_address_absolute_x, cpu_address_indirect, cpu_address_zero_page_y,
  page_cross, load_operand, load_zero_page, zero_page_pointer, indirect_target,
}
use triathlon.Nes.Ops.{
  cpu_op_ora, cpu_op_asl, cpu_op_asla, cpu_op_and, cpu_op_bit, cpu_op_rol, cpu_op_rola, cpu_op_eor,
  cpu_op_lsr, cpu_op_lsra, cpu_op_adc, cpu_op_ror, cpu_op_rora, cpu_op_sta, cpu_op_sty, cpu_op_stx,
  cpu_op_txa, cpu_op_tya, cpu_op_txs, cpu_op_ldy, cpu_op_lda, cpu_op_ldx, cpu_op_tay, cpu_op_tax,
  cpu_op_tsx, cpu_op_sbc, cpu_op_nop,
}
use triathlon.Nes.Ops.Control.{
  cpu_op_bcs, cpu_op_beq, cpu_op_bmi, cpu_op_bvs, cpu_op_bne, cpu_op_bcc, cpu_op_bpl, cpu_op_bvc,
  cpu_op_jmp, cpu_op_jsr, cpu_op_rts, cpu_op_brk, cpu_op_rti, cpu_op_clc, cpu_op_cld, cpu_op_cli,
  cpu_op_clv, cpu_op_sec, cpu_op_sed, cpu_op_sei, cpu_op_cmp, cpu_op_cpx, cpu_op_cpy, cpu_op_inc,
  cpu_op_inx, cpu_op_iny, cpu_op_dec, cpu_op_dex, cpu_op_dey, cpu_op_php, cpu_op_pha, cpu_op_pla,
  cpu_op_plp,
}
use triathlon.Nes.Ops.Extended.{
  cpu_op_aso, cpu_op_axa, cpu_op_axs, cpu_op_dcm, cpu_op_ins, cpu_op_lax, cpu_op_lse, cpu_op_rla,
  cpu_op_rra,
}
use triathlon.Nes.Cpu.{cpu_compare, cpu_nmi_interrupt_address}
use triathlon.Nes.Opcodes.{Mode, Handler, address_mode, handle}
use triathlon.Nes.Opcodes.{
  implied, indirect_x, zero_page, immediate, absolute, relative, indirect_y, zero_page_x,
  absolute_y, absolute_x, indirect, zero_page_y,
}
use triathlon.Nes.Opcodes.{
  brk, ora, asl, php, asla, bpl, clc, jsr, and, bit, rol, plp, rola, bmi, sec, rti, eor, lsr, pha,
  lsra, jmp, bvc, cli, rts, adc, ror, pla, rora, bvs, sei, sta, sty, stx, dey, txa, bcc, tya, txs,
  ldy, lda, ldx, tay, tax, bcs, clv, tsx, cpy, cmp, dec, iny, dex, bne, cld, cpx, sbc, inc, inx,
  nop, beq, sed, aso, rla, lse, rra, axs, axa, lax, dcm, ins, fe,
}

-- No handler touches the clocks.
pub clocks-handle : (h : Handler) (s : Machine) → clocks (handle h s) ≡ clocks s
unfolding handle cpu_op_brk cpu_op_ora cpu_op_asl cpu_op_php cpu_op_asla cpu_op_bpl cpu_op_clc
    cpu_op_jsr cpu_op_and cpu_op_bit cpu_op_rol cpu_op_plp cpu_op_rola cpu_op_bmi cpu_op_sec
    cpu_op_rti cpu_op_eor cpu_op_lsr cpu_op_pha cpu_op_lsra cpu_op_jmp cpu_op_bvc cpu_op_cli
    cpu_op_rts cpu_op_adc cpu_op_ror cpu_op_pla cpu_op_rora cpu_op_bvs cpu_op_sei cpu_op_sta
    cpu_op_sty cpu_op_stx cpu_op_dey cpu_op_txa cpu_op_bcc cpu_op_tya cpu_op_txs cpu_op_ldy
    cpu_op_lda cpu_op_ldx cpu_op_tay cpu_op_tax cpu_op_bcs cpu_op_clv cpu_op_tsx cpu_op_cpy
    cpu_op_cmp cpu_op_dec cpu_op_iny cpu_op_dex cpu_op_bne cpu_op_cld cpu_op_cpx cpu_op_sbc
    cpu_op_inc cpu_op_inx cpu_op_nop cpu_op_beq cpu_op_sed cpu_op_aso cpu_op_rla cpu_op_lse
    cpu_op_rra cpu_op_axs cpu_op_axa cpu_op_lax cpu_op_dcm cpu_op_ins cpu_compare
    cpu_nmi_interrupt_address
clocks-handle brk s = (memory_readw-Keeps 0xfffa _).clocks ∙ clocks-pushb _ _ ∙ clocks-pushw _ s
clocks-handle ora s = refl
clocks-handle asl s = (memory_writeb-Keeps _ _ _).clocks
clocks-handle php s = clocks-pushb _ s
clocks-handle asla s = refl
clocks-handle bpl s = ground arith
clocks-handle clc s = refl
clocks-handle jsr s = clocks-pushw _ s
clocks-handle and s = refl
clocks-handle bit s = refl
clocks-handle rol s = (memory_writeb-Keeps _ _ _).clocks
clocks-handle plp s = clocks-popb s
clocks-handle rola s = refl
clocks-handle bmi s = ground arith
clocks-handle sec s = refl
clocks-handle rti s = clocks-popw _ ∙ clocks-popb s
clocks-handle eor s = refl
clocks-handle lsr s = (memory_writeb-Keeps _ _ _).clocks
clocks-handle pha s = clocks-pushb _ s
clocks-handle lsra s = refl
clocks-handle jmp s = refl
clocks-handle bvc s = ground arith
clocks-handle cli s = refl
clocks-handle rts s = clocks-popw s
clocks-handle adc s = refl
clocks-handle ror s = (memory_writeb-Keeps _ _ _).clocks
clocks-handle pla s = clocks-popb s
clocks-handle rora s = refl
clocks-handle bvs s = ground arith
clocks-handle sei s = refl
clocks-handle sta s = (memory_writeb-Keeps _ _ _).clocks
clocks-handle sty s = (memory_writeb-Keeps _ _ _).clocks
clocks-handle stx s = (memory_writeb-Keeps _ _ _).clocks
clocks-handle dey s = refl
clocks-handle txa s = refl
clocks-handle bcc s = ground arith
clocks-handle tya s = refl
clocks-handle txs s = refl
clocks-handle ldy s = refl
clocks-handle lda s = refl
clocks-handle ldx s = refl
clocks-handle tay s = refl
clocks-handle tax s = refl
clocks-handle bcs s = ground arith
clocks-handle clv s = refl
clocks-handle tsx s = refl
clocks-handle cpy s = refl
clocks-handle cmp s = refl
clocks-handle dec s = (memory_writeb-Keeps _ _ _).clocks
clocks-handle iny s = refl
clocks-handle dex s = refl
clocks-handle bne s = ground arith
clocks-handle cld s = refl
clocks-handle cpx s = refl
clocks-handle sbc s = refl
clocks-handle inc s = (memory_writeb-Keeps _ _ _).clocks
clocks-handle inx s = refl
clocks-handle nop s = refl
clocks-handle beq s = ground arith
clocks-handle sed s = refl
clocks-handle aso s = (memory_writeb-Keeps _ _ _).clocks
clocks-handle rla s = (memory_writeb-Keeps _ _ _).clocks
clocks-handle lse s = (memory_writeb-Keeps _ _ _).clocks
clocks-handle rra s = (memory_writeb-Keeps _ _ _).clocks
clocks-handle axs s = (memory_writeb-Keeps _ _ _).clocks
clocks-handle axa s = (memory_writeb-Keeps _ _ _).clocks
clocks-handle lax s = refl
clocks-handle dcm s = (memory_writeb-Keeps _ _ _).clocks
clocks-handle ins s = (memory_writeb-Keeps _ _ _).clocks
clocks-handle fe s = refl

at_most_one : (n : ℕ) → n ≡ 0 → n ≤ 1
at_most_one n h = omega arith

-- At most one cycle more, and the count of all cycles as it was.
abbrev Extra : Machine → Machine → Type 0
Extra s s' = (s'.op_cycles ≤ 1) × (s'.cpu_cycles ≡ s.cpu_cycles)

none_extra : {o c o' c' : ℕ} → ◌≡◌ {A = ℕ × ℕ} (o', c') (o, c) → o ≡ 0 → (o' ≤ 1) × (c' ≡ c)
none_extra e h = (at_most_one _ (ap (λ t. t.0) e ∙ h), ap (λ t. t.1) e)

page_cross-Extra :
    (s s' : Machine) → clocks s' ≡ clocks s → s.op_cycles ≡ 0 → Extra s (page_cross s')
unfolding page_cross
page_cross-Extra s s' e h = ground (arith, ap (λ (c : ℕ × ℕ). c.0) e, ap (λ (c : ℕ × ℕ). c.1) e)

load_operand_clocks : (s : Machine) → clocks (load_operand s) ≡ clocks s
unfolding load_operand
load_operand_clocks s = (memory_readb-Keeps s.op_address s).clocks

pointer_clocks : (at : ℕ) (s : Machine) → clocks (zero_page_pointer at s).1 ≡ clocks s
unfolding zero_page_pointer
pointer_clocks at s = (memory_readb-Keeps _ _).clocks ∙ (memory_readb-Keeps _ s).clocks

indirect_clocks : (at : ℕ) (s : Machine) → clocks (indirect_target at s).1 ≡ clocks s
unfolding indirect_target
indirect_clocks at s = elim (Bool-cases (bit_and at 0xff == 0xff)) [
  | inl e ↦ rw e ((memory_readb-Keeps _ _).clocks ∙ (memory_readb-Keeps _ s).clocks)
  | inr e ↦ rw e (memory_readw-Keeps at s).clocks
]

pub address_mode-Extra : (m : Mode) (s : Machine) → s.op_cycles ≡ 0 → Extra s (address_mode m s)
unfolding address_mode cpu_address_implied cpu_address_indirect_x cpu_address_zero_page
    cpu_address_immediate cpu_address_absolute cpu_address_relative cpu_address_indirect_y
    cpu_address_zero_page_x cpu_address_absolute_y cpu_address_absolute_x cpu_address_indirect
    cpu_address_zero_page_y load_zero_page
address_mode-Extra implied s h = none_extra (refl) h
address_mode-Extra immediate s h = none_extra ((memory_readb-Keeps s.cpu.pc s).clocks) h
address_mode-Extra zero_page s h = none_extra ((memory_readb-Keeps s.cpu.pc s).clocks) h
address_mode-Extra zero_page_x s h = none_extra ((memory_readb-Keeps s.cpu.pc s).clocks) h
address_mode-Extra zero_page_y s h = none_extra ((memory_readb-Keeps s.cpu.pc s).clocks) h
address_mode-Extra absolute s h =
    none_extra (load_operand_clocks _ ∙ (memory_readw-Keeps s.cpu.pc s).clocks) h
address_mode-Extra absolute_x s h =
    page_cross-Extra s _ (load_operand_clocks _ ∙ (memory_readw-Keeps s.cpu.pc s).clocks) h
address_mode-Extra absolute_y s h =
    page_cross-Extra s _ (load_operand_clocks _ ∙ (memory_readw-Keeps s.cpu.pc s).clocks) h
address_mode-Extra relative s h = page_cross-Extra s _ ((memory_readb-Keeps s.cpu.pc s).clocks) h
address_mode-Extra indirect s h =
    none_extra (indirect_clocks _ _ ∙ (memory_readw-Keeps s.cpu.pc s).clocks) h
address_mode-Extra indirect_x s h =
    none_extra (load_operand_clocks _ ∙ pointer_clocks _ _ ∙ (memory_readb-Keeps s.cpu.pc s).clocks)
      h
address_mode-Extra indirect_y s h =
    page_cross-Extra s _
      (load_operand_clocks _ ∙ pointer_clocks _ _ ∙ (memory_readb-Keeps s.cpu.pc s).clocks) h
