-- ===== src/Nes/Opcodes/Rows.antt =====
-- The lines of `cpu_init`, in their order.
use triathlon.Prelude.{List, [], ◌∷◌, ◌++◌}
use triathlon.Nes.Opcodes.{Row, bis, eis, nii}
use triathlon.Nes.Opcodes.{
  implied, indirect_x, zero_page, immediate, absolute, relative, indirect_y, zero_page_x,
  absolute_y, absolute_x, indirect, zero_page_y,
}
use triathlon.Nes.Opcodes.{
  nop, brk, ora, asl, php, asla, bpl, clc, jsr, and, bit, rol, plp, rola, bmi, sec, rti, eor, lsr,
  pha, lsra, jmp, bvc, cli, rts, adc, ror, pla, rora, bvs, sei, sta, sty, stx, dey, txa, bcc, tya,
  txs, ldy, lda, ldx, tay, tax, bcs, clv, tsx, cpy, cmp, dec, iny, dex, bne, cld, cpx, sbc, inc,
  inx, beq, sed, aso, rla, lse, rra, axs, axa, lax, dcm, ins,
}

unfoldable pub base_rows_0 : List Row
base_rows_0 =
    bis 0x00 7 brk implied
    ∷ bis 0x01 6 ora indirect_x
    ∷ bis 0x05 3 ora zero_page
    ∷ bis 0x06 5 asl zero_page
    ∷ bis 0x08 3 php implied
    ∷ bis 0x09 2 ora immediate
    ∷ bis 0x0a 2 asla implied
    ∷ bis 0x0d 4 ora absolute
    ∷ bis 0x0e 6 asl absolute
    ∷ bis 0x10 2 bpl relative
    ∷ bis 0x11 5 ora indirect_y
    ∷ bis 0x15 4 ora zero_page_x
    ∷ bis 0x16 6 asl zero_page_x
    ∷ bis 0x18 2 clc implied
    ∷ bis 0x19 4 ora absolute_y
    ∷ bis 0x1d 4 ora absolute_x
    ∷ bis 0x1e 7 asl absolute_x
    ∷ bis 0x20 6 jsr absolute
    ∷ bis 0x21 6 and indirect_x
    ∷ bis 0x24 3 bit zero_page
    ∷ bis 0x25 3 and zero_page
    ∷ bis 0x26 5 rol zero_page
    ∷ bis 0x28 4 plp implied
    ∷ bis 0x29 2 and immediate
    ∷ bis 0x2a 2 rola implied
    ∷ bis 0x2c 4 bit absolute
    ∷ bis 0x2d 2 and absolute
    ∷ bis 0x2e 6 rol absolute
    ∷ bis 0x30 2 bmi relative
    ∷ bis 0x31 5 and indirect_y
    ∷ bis 0x35 4 and zero_page_x
    ∷ bis 0x36 6 rol zero_page_x
    ∷ bis 0x38 2 sec implied
    ∷ bis 0x39 4 and absolute_y
    ∷ bis 0x3d 4 and absolute_x
    ∷ bis 0x3e 7 rol absolute_x
    ∷ []

unfoldable pub base_rows_4 : List Row
base_rows_4 =
    bis 0x40 6 rti implied
    ∷ bis 0x41 6 eor indirect_x
    ∷ bis 0x45 3 eor zero_page
    ∷ bis 0x46 5 lsr zero_page
    ∷ bis 0x48 3 pha implied
    ∷ bis 0x49 2 eor immediate
    ∷ bis 0x4a 2 lsra implied
    ∷ bis 0x4c 3 jmp absolute
    ∷ bis 0x4d 4 eor absolute
    ∷ bis 0x4e 6 lsr absolute
    ∷ bis 0x50 2 bvc relative
    ∷ bis 0x51 5 eor indirect_y
    ∷ bis 0x55 4 eor zero_page_x
    ∷ bis 0x56 6 lsr zero_page_x
    ∷ bis 0x58 2 cli implied
    ∷ bis 0x59 4 eor absolute_y
    ∷ bis 0x5d 4 eor absolute_x
    ∷ bis 0x5e 7 lsr absolute_x
    ∷ bis 0x60 6 rts implied
    ∷ bis 0x61 6 adc indirect_x
    ∷ bis 0x65 3 adc zero_page
    ∷ bis 0x66 5 ror zero_page
    ∷ bis 0x68 4 pla implied
    ∷ bis 0x69 2 adc immediate
    ∷ bis 0x6a 2 rora implied
    ∷ bis 0x6c 5 jmp indirect
    ∷ bis 0x6d 4 adc absolute
    ∷ bis 0x6e 6 ror absolute
    ∷ bis 0x70 2 bvs relative
    ∷ bis 0x71 5 adc indirect_y
    ∷ bis 0x75 4 adc zero_page_x
    ∷ bis 0x76 6 ror zero_page_x
    ∷ bis 0x78 2 sei implied
    ∷ bis 0x79 4 adc absolute_y
    ∷ bis 0x7d 4 adc absolute_x
    ∷ bis 0x7e 7 ror absolute_x
    ∷ []

unfoldable pub base_rows_8 : List Row
base_rows_8 =
    bis 0x81 6 sta indirect_x
    ∷ bis 0x84 3 sty zero_page
    ∷ bis 0x85 3 sta zero_page
    ∷ bis 0x86 3 stx zero_page
    ∷ bis 0x88 2 dey implied
    ∷ bis 0x8a 2 txa implied
    ∷ bis 0x8c 4 sty absolute
    ∷ bis 0x8d 4 sta absolute
    ∷ bis 0x8e 4 stx absolute
    ∷ bis 0x90 2 bcc relative
    ∷ bis 0x91 6 sta indirect_y
    ∷ bis 0x94 4 sty zero_page_x
    ∷ bis 0x95 4 sta zero_page_x
    ∷ bis 0x96 4 stx zero_page_y
    ∷ bis 0x98 2 tya implied
    ∷ bis 0x99 5 sta absolute_y
    ∷ bis 0x9a 2 txs implied
    ∷ bis 0x9d 5 sta absolute_x
    ∷ bis 0xa0 2 ldy immediate
    ∷ bis 0xa1 6 lda indirect_x
    ∷ bis 0xa2 2 ldx immediate
    ∷ bis 0xa4 3 ldy zero_page
    ∷ bis 0xa5 3 lda zero_page
    ∷ bis 0xa6 3 ldx zero_page
    ∷ bis 0xa8 2 tay implied
    ∷ bis 0xa9 2 lda immediate
    ∷ bis 0xaa 2 tax implied
    ∷ bis 0xac 4 ldy absolute
    ∷ bis 0xad 4 lda absolute
    ∷ bis 0xae 4 ldx absolute
    ∷ bis 0xb0 2 bcs relative
    ∷ bis 0xb1 5 lda indirect_y
    ∷ bis 0xb4 4 ldy zero_page_x
    ∷ bis 0xb5 4 lda zero_page_x
    ∷ bis 0xb6 4 ldx zero_page_y
    ∷ bis 0xb8 2 clv implied
    ∷ bis 0xb9 4 lda absolute_y
    ∷ bis 0xba 2 tsx implied
    ∷ bis 0xbc 4 ldy absolute_x
    ∷ bis 0xbd 4 lda absolute_x
    ∷ bis 0xbe 4 ldx absolute_y
    ∷ []

unfoldable pub base_rows_c : List Row
base_rows_c =
    bis 0xc0 2 cpy immediate
    ∷ bis 0xc1 6 cmp indirect_x
    ∷ bis 0xc4 3 cpy zero_page
    ∷ bis 0xc5 3 cmp zero_page
    ∷ bis 0xc6 5 dec zero_page
    ∷ bis 0xc8 2 iny implied
    ∷ bis 0xc9 2 cmp immediate
    ∷ bis 0xca 2 dex implied
    ∷ bis 0xcc 4 cpy absolute
    ∷ bis 0xcd 4 cmp absolute
    ∷ bis 0xce 6 dec absolute
    ∷ bis 0xd0 2 bne relative
    ∷ bis 0xd1 5 cmp indirect_y
    ∷ bis 0xd5 4 cmp zero_page_x
    ∷ bis 0xd6 6 dec zero_page_x
    ∷ bis 0xd8 2 cld implied
    ∷ bis 0xd9 4 cmp absolute_y
    ∷ bis 0xdd 4 cmp absolute_x
    ∷ bis 0xde 7 dec absolute_x
    ∷ bis 0xe0 2 cpx immediate
    ∷ bis 0xe1 6 sbc indirect_x
    ∷ bis 0xe4 3 cpx zero_page
    ∷ bis 0xe5 3 sbc zero_page
    ∷ bis 0xe6 5 inc zero_page
    ∷ bis 0xe8 2 inx implied
    ∷ bis 0xe9 2 sbc immediate
    ∷ bis 0xea 2 nop implied
    ∷ bis 0xec 4 cpx absolute
    ∷ bis 0xed 4 sbc absolute
    ∷ bis 0xee 6 inc absolute
    ∷ bis 0xf0 2 beq relative
    ∷ bis 0xf1 5 sbc indirect_y
    ∷ bis 0xf5 4 sbc zero_page_x
    ∷ bis 0xf6 6 inc zero_page_x
    ∷ bis 0xf8 2 sed implied
    ∷ bis 0xf9 4 sbc absolute_y
    ∷ bis 0xfd 4 sbc absolute_x
    ∷ bis 0xfe 7 inc absolute_x
    ∷ []

unfoldable pub extended_rows : List Row
extended_rows =
    eis 0x03 8 aso indirect_x
    ∷ eis 0x07 5 aso zero_page
    ∷ eis 0x0f 6 aso absolute
    ∷ eis 0x13 8 aso indirect_y
    ∷ eis 0x17 6 aso zero_page_x
    ∷ eis 0x1b 7 aso absolute_y
    ∷ eis 0x1f 7 aso absolute_x
    ∷ eis 0x23 8 rla indirect_x
    ∷ eis 0x27 5 rla zero_page
    ∷ eis 0x2f 6 rla absolute
    ∷ eis 0x33 8 rla indirect_y
    ∷ eis 0x37 6 rla zero_page_x
    ∷ eis 0x3b 7 rla absolute_y
    ∷ eis 0x3f 7 rla absolute_x
    ∷ eis 0x43 8 lse indirect_x
    ∷ eis 0x47 5 lse zero_page
    ∷ eis 0x4f 6 lse absolute
    ∷ eis 0x53 8 lse indirect_y
    ∷ eis 0x57 6 lse zero_page_x
    ∷ eis 0x5b 7 lse absolute_y
    ∷ eis 0x5f 7 lse absolute_x
    ∷ eis 0x63 8 rra indirect_x
    ∷ eis 0x67 5 rra zero_page
    ∷ eis 0x6f 6 rra absolute
    ∷ eis 0x73 8 rra indirect_y
    ∷ eis 0x77 6 rra zero_page_x
    ∷ eis 0x7b 7 rra absolute_y
    ∷ eis 0x7f 7 rra absolute_x
    ∷ eis 0x83 6 axs indirect_x
    ∷ eis 0x87 3 axs zero_page
    ∷ eis 0x8f 4 axs absolute
    ∷ eis 0x93 6 axa indirect_y
    ∷ eis 0x97 4 axs zero_page_y
    ∷ eis 0x9f 5 axa absolute_y
    ∷ eis 0xa3 6 lax indirect_x
    ∷ eis 0xa7 3 lax zero_page
    ∷ eis 0xaf 4 lax absolute
    ∷ eis 0xb3 5 lax indirect_y
    ∷ eis 0xb7 4 lax zero_page_y
    ∷ eis 0xbf 4 lax absolute_y
    ∷ eis 0xc3 8 dcm indirect_x
    ∷ eis 0xc7 5 dcm zero_page
    ∷ eis 0xcf 6 dcm absolute
    ∷ eis 0xd3 8 dcm indirect_y
    ∷ eis 0xd7 6 dcm zero_page_x
    ∷ eis 0xdb 7 dcm absolute_y
    ∷ eis 0xdf 7 dcm absolute_x
    ∷ eis 0xe3 8 ins indirect_x
    ∷ eis 0xe7 5 ins zero_page
    ∷ eis 0xeb 2 sbc immediate
    ∷ eis 0xef 6 ins absolute
    ∷ eis 0xf3 8 ins indirect_y
    ∷ eis 0xf7 6 ins zero_page_x
    ∷ eis 0xfb 7 ins absolute_y
    ∷ eis 0xff 7 ins absolute_x
    ∷ []

unfoldable pub unimplemented_rows : List Row
unimplemented_rows =
    nii 0x04 zero_page
    ∷ nii 0x0c absolute
    ∷ nii 0x14 zero_page_x
    ∷ nii 0x1a implied
    ∷ nii 0x1c absolute_x
    ∷ nii 0x34 zero_page_x
    ∷ nii 0x3a implied
    ∷ nii 0x3c absolute_x
    ∷ nii 0x44 zero_page
    ∷ nii 0x54 zero_page_x
    ∷ nii 0x5a implied
    ∷ nii 0x5c absolute_x
    ∷ nii 0x64 zero_page
    ∷ nii 0x74 zero_page_x
    ∷ nii 0x7a implied
    ∷ nii 0x7c absolute_x
    ∷ nii 0x80 immediate
    ∷ nii 0xd4 zero_page_x
    ∷ nii 0xda implied
    ∷ nii 0xdc absolute_x
    ∷ nii 0xf4 zero_page_x
    ∷ nii 0xfa implied
    ∷ nii 0xfc absolute_x
    ∷ []

unfoldable pub rows : List Row
unfolding base_rows_0 base_rows_4 base_rows_8 base_rows_c extended_rows unimplemented_rows
rows =
    base_rows_0
    ++ (base_rows_4 ++ (base_rows_8 ++ (base_rows_c ++ (extended_rows ++ unimplemented_rows))))
