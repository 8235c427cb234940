-- ===== src/Npc/Boot.antt =====
-- The code that starts the firmware, npc/csrc/include/boot_loader.h.
use Prim.Native.Nat.{bit_and, bit_or}
use triathlon.Prelude.{ℕ, ◌+◌, ◌-◌, ◌*◌, Bool, not, ◌==◌, if◌then◌else◌, List, [], ◌∷◌, ◌++◌}
use triathlon.Prelude.Words.{u32, sub_int, ◌<<◌, ◌>>◌}
use triathlon.Npc.State.{UnifiedMem, dtb_base, pmem_base, boot_rom_base}
use triathlon.Npc.Bus.{write_words}
pub mod Hart
pub mod Encoding
pub mod Handoff
mod Tests

pub record BootHandoff : Type 0 where
  pub hartid : ℕ
  pub dtb_addr : ℕ
  pub satp : ℕ

unfoldable pub make_default_boot_handoff : BootHandoff
make_default_boot_handoff = record { hartid = 0; dtb_addr = dtb_base; satp = 0 }

abbrev pub csr_satp : ℕ
csr_satp = 0x180

unfoldable pub enc_i : ℕ → ℕ → ℕ → ℕ → ℕ → ℕ
enc_i imm12 rs1 funct3 rd opcode =
    bit_or
      (bit_or
        (bit_or (bit_or (bit_and imm12 0xfff << 20) (bit_and rs1 0x1f << 15))
          (bit_and funct3 0x7 << 12))
        (bit_and rd 0x1f << 7))
      (bit_and opcode 0x7f)

unfoldable pub enc_u : ℕ → ℕ → ℕ → ℕ
enc_u imm31_12 rd opcode =
    bit_or (bit_or (bit_and imm31_12 0xfffff << 12) (bit_and rd 0x1f << 7)) (bit_and opcode 0x7f)

unfoldable pub insn_lui : ℕ → ℕ → ℕ
insn_lui rd imm31_12 = enc_u imm31_12 rd 0x37

unfoldable pub insn_addi : ℕ → ℕ → ℕ → ℕ
insn_addi rd rs1 imm = enc_i imm rs1 0x0 rd 0x13

unfoldable pub insn_csrrw : ℕ → ℕ → ℕ → ℕ
insn_csrrw rd rs1 csr = enc_i csr rs1 0x1 rd 0x73

unfoldable pub insn_jalr : ℕ → ℕ → ℕ → ℕ
insn_jalr rd rs1 imm = enc_i imm rs1 0x0 rd 0x67

-- The low 12 bits as a signed number.
unfoldable pub low12_of : ℕ → ℕ
low12_of value =
    let low12 = bit_and value 0xfff in
    if bit_and low12 0x800 == 0 then low12 else sub_int low12 0x1000

-- The two instructions that `emit_load_imm32` appends.
unfoldable pub emit_load_imm32 : ℕ → ℕ → List ℕ
emit_load_imm32 rd value =
    insn_lui rd (u32 (value + 0x800) >> 12) ∷ insn_addi rd rd (low12_of value) ∷ []

unfoldable pub set_satp : ℕ → List ℕ
set_satp satp =
    if satp == 0
    then insn_csrrw 0 0 csr_satp ∷ []
    else emit_load_imm32 12 satp ++ (insn_csrrw 0 12 csr_satp ∷ [])

unfoldable pub make_jump_stub : ℕ → List ℕ
make_jump_stub target_pc = emit_load_imm32 1 target_pc ++ (insn_jalr 0 1 0 ∷ 0x00000013 ∷ [])

unfoldable pub make_boot_handoff_stub : ℕ → BootHandoff → List ℕ
make_boot_handoff_stub firmware_entry handoff =
    emit_load_imm32 10 handoff.hartid
    ++ (emit_load_imm32 11 handoff.dtb_addr
        ++ (set_satp handoff.satp
            ++ (emit_load_imm32 1 firmware_entry ++ (insn_jalr 0 1 0 ∷ 0x00000013 ∷ []))))

unfoldable pub install_boot_handoff_stub : ℕ → BootHandoff → ℕ → UnifiedMem → UnifiedMem
install_boot_handoff_stub firmware_entry handoff stub_base m =
    write_words (make_boot_handoff_stub firmware_entry handoff) 0 stub_base m

unfoldable pub install_jump_stub : ℕ → ℕ → UnifiedMem → UnifiedMem
install_jump_stub target_pc stub_base m = write_words (make_jump_stub target_pc) 0 stub_base m

-- The words of the header.
unfoldable pub minimal_dtb : List ℕ
minimal_dtb = 0xd00dfeed ∷ 0x28 ∷ 0x10 ∷ 0x20 ∷ 0x28 ∷ 17 ∷ 16 ∷ 0 ∷ 0 ∷ 0 ∷ []

unfoldable pub install_minimal_dtb : ℕ → UnifiedMem → UnifiedMem
install_minimal_dtb dtb_addr m = write_words minimal_dtb 0 dtb_addr m
