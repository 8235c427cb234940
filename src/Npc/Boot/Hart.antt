-- ===== src/Npc/Boot/Hart.antt =====
-- The instructions that boot_loader.h emits, as the RISC-V manual describes them.
use triathlon.Prelude.{
  ℕ, ◌+◌, ◌-◌, ◌*◌, ◌/◌, ◌%◌, ◌^◌, ◌&&◌, ◌==◌, ltb, if◌then◌else◌, List, [], ◌∷◌,
}
use triathlon.Prelude.Store.{Store, update}

pub record Hart : Type 0 where
  pub pc : ℕ
  pub regs : Store
  pub satp : ℕ

-- Register 0 reads 0 and keeps nothing.
abbrev pub get_reg : ℕ → Hart → ℕ
get_reg r h = if r == 0 then 0 else h.regs r

abbrev pub set_reg : ℕ → ℕ → Hart → Hart
set_reg r v h = if r == 0 then h else record h { regs = update h.regs r v }

-- A 12-bit immediate, its sign extended to 32 bits.
abbrev pub sign_extend : ℕ → ℕ
sign_extend imm = if ltb imm 2048 then imm else imm + (2 ^ 32 - 4096)

abbrev pub next_pc : Hart → Hart
next_pc h = record h { pc = (h.pc + 4) % 2 ^ 32 }

-- One instruction. An instruction of another kind leaves everything as it is.
unfoldable pub execute : ℕ → Hart → Hart
execute insn h =
    let opcode = insn % 2 ^ 7 in
    let rd = insn / 2 ^ 7 % 2 ^ 5 in
    let funct3 = insn / 2 ^ 12 % 2 ^ 3 in
    let rs1 = insn / 2 ^ 15 % 2 ^ 5 in
    let imm = insn / 2 ^ 20 in
    if opcode == 0x37
    then next_pc (set_reg rd (insn / 2 ^ 12 % 2 ^ 20 * 2 ^ 12) h)
    else if (opcode == 0x13) && (funct3 == 0)
    then next_pc (set_reg rd ((get_reg rs1 h + sign_extend imm) % 2 ^ 32) h)
    else if (opcode == 0x73) && (funct3 == 1) && (imm == 0x180)
    then next_pc (record (set_reg rd h.satp h) { satp = get_reg rs1 h })
    else if (opcode == 0x67) && (funct3 == 0)
    then record (set_reg rd ((h.pc + 4) % 2 ^ 32) h) {
      pc = (get_reg rs1 h + sign_extend imm) % 2 ^ 32 / 2 * 2;
    }
    else h

-- The words of a program, the first at `at`, as long as the program counter stands at the next one.
unfoldable pub run : ℕ → List ℕ → Hart → Hart
run at [] h = h
run at (w ∷ ws) h = let rest = run (at + 4) ws (execute w h) in if h.pc == at then rest else h
