-- ===== src/Npc/Boot/Encoding.antt =====
-- The encoders of boot_loader.h put each field where the manual has it.
use Prim.Native.Nat.{bit_or}
use triathlon.Prelude.{ℕ, ◌+◌, ◌*◌, ◌/◌, ◌%◌, ◌^◌, ◌<◌, ◌≡◌, refl, arith}
use triathlon.Prelude.Bits.{bit_and_mask}
use triathlon.Prelude.Fields.{bit_or_add}
use triathlon.Npc.Boot.{enc_i, enc_u, insn_lui, insn_addi, insn_csrrw, insn_jalr, csr_satp}
use triathlon.Npc.Boot.Hart.{Hart, execute, sign_extend, get_reg, set_reg, next_pc}

-- One more field below a word whose low digits are clear.
below : (k w h n : ℕ) → w ≡ h * 2 ^ k → n < 2 ^ k → bit_or w n ≡ w + n
below k w h n e l = rw e (bit_or_add k h n l)

enc_i-sum :
    (imm rs1 f rd op : ℕ)
    → rs1 < 2 ^ 5
    → f < 2 ^ 3
    → rd < 2 ^ 5
    → op < 2 ^ 7
    → enc_i imm rs1 f rd op ≡ imm % 2 ^ 12 * 2 ^ 20 + rs1 * 2 ^ 15 + f * 2 ^ 12 + rd * 2 ^ 7 + op
unfolding enc_i
enc_i-sum imm rs1 f rd op l1 lf ld lo =
    let i = imm % 2 ^ 12 in
    let m1 : rs1 % 2 ^ 5 ≡ rs1 = omega arith in
    let m2 : f % 2 ^ 3 ≡ f = omega arith in
    let m3 : rd % 2 ^ 5 ≡ rd = omega arith in
    let m4 : op % 2 ^ 7 ≡ op = omega arith in
    let s1 = below 20 (i * 2 ^ 20) i (rs1 * 2 ^ 15) refl (omega arith) in
    let s2 =
      below 15 (i * 2 ^ 20 + rs1 * 2 ^ 15) (i * 32 + rs1) (f * 2 ^ 12) (omega arith)
        (omega arith) in
    let s3 =
      below 12 (i * 2 ^ 20 + rs1 * 2 ^ 15 + f * 2 ^ 12) (i * 256 + rs1 * 8 + f) (rd * 2 ^ 7)
        (omega arith) (omega arith) in
    let s4 =
      below 7 (i * 2 ^ 20 + rs1 * 2 ^ 15 + f * 2 ^ 12 + rd * 2 ^ 7)
        (i * 8192 + rs1 * 256 + f * 32 + rd) op (omega arith) (omega arith) in
    rw
      (
        bit_and_mask 12 imm,
        bit_and_mask 5 rs1,
        bit_and_mask 3 f,
        bit_and_mask 5 rd,
        bit_and_mask 7 op,
        m1,
        m2,
        m3,
        m4,
        s1,
        s2,
        s3,
        s4,
      )
      refl

enc_u-sum :
    (imm rd op : ℕ)
    → rd < 2 ^ 5
    → op < 2 ^ 7
    → enc_u imm rd op ≡ imm % 2 ^ 20 * 2 ^ 12 + rd * 2 ^ 7 + op
unfolding enc_u
enc_u-sum imm rd op ld lo =
    let i = imm % 2 ^ 20 in
    let m3 : rd % 2 ^ 5 ≡ rd = omega arith in
    let m4 : op % 2 ^ 7 ≡ op = omega arith in
    let s1 = below 12 (i * 2 ^ 12) i (rd * 2 ^ 7) refl (omega arith) in
    let s2 = below 7 (i * 2 ^ 12 + rd * 2 ^ 7) (i * 32 + rd) op (omega arith) (omega arith) in
    rw (bit_and_mask 20 imm, bit_and_mask 5 rd, bit_and_mask 7 op, m3, m4, s1, s2) refl

-- What each emitted instruction does.
pub lui-execute :
    (rd imm : ℕ) (h : Hart)
    → rd < 32
    → imm < 2 ^ 20
    → execute (insn_lui rd imm) h ≡ next_pc (set_reg rd (imm * 2 ^ 12) h)
unfolding execute insn_lui
lui-execute rd imm h l li =
    let w = imm % 2 ^ 20 * 2 ^ 12 + rd * 2 ^ 7 + 0x37 in
    let op : w % 2 ^ 7 ≡ 0x37 = omega arith in
    let dest : w / 2 ^ 7 % 2 ^ 5 ≡ rd = omega arith in
    let value : w / 2 ^ 12 % 2 ^ 20 ≡ imm = omega arith in
    rw (enc_u-sum imm rd 0x37 l (omega arith), op, dest, value) refl

pub addi-execute :
    (rd rs1 imm : ℕ) (h : Hart)
    → rd < 32
    → rs1 < 32
    → execute (insn_addi rd rs1 imm) h
      ≡ next_pc (set_reg rd ((get_reg rs1 h + sign_extend (imm % 2 ^ 12)) % 2 ^ 32) h)
unfolding execute insn_addi
addi-execute rd rs1 imm h l ls =
    let w = imm % 2 ^ 12 * 2 ^ 20 + rs1 * 2 ^ 15 + 0 * 2 ^ 12 + rd * 2 ^ 7 + 0x13 in
    let op : w % 2 ^ 7 ≡ 0x13 = omega arith in
    let dest : w / 2 ^ 7 % 2 ^ 5 ≡ rd = omega arith in
    let kind : w / 2 ^ 12 % 2 ^ 3 ≡ 0 = omega arith in
    let source : w / 2 ^ 15 % 2 ^ 5 ≡ rs1 = omega arith in
    let value : w / 2 ^ 20 ≡ imm % 2 ^ 12 = omega arith in
    rw (enc_i-sum imm rs1 0 rd 0x13 ls (omega arith) l (omega arith), op, dest, kind, source, value)
      refl

pub csrrw-execute :
    (rs1 : ℕ) (h : Hart)
    → rs1 < 32
    → execute (insn_csrrw 0 rs1 csr_satp) h
      ≡ record h { pc = (h.pc + 4) % 2 ^ 32; satp = get_reg rs1 h }
unfolding execute insn_csrrw
csrrw-execute rs1 h ls =
    let w = 0x180 * 2 ^ 20 + rs1 * 2 ^ 15 + 1 * 2 ^ 12 + 0 * 2 ^ 7 + 0x73 in
    let op : w % 2 ^ 7 ≡ 0x73 = omega arith in
    let dest : w / 2 ^ 7 % 2 ^ 5 ≡ 0 = omega arith in
    let kind : w / 2 ^ 12 % 2 ^ 3 ≡ 1 = omega arith in
    let source : w / 2 ^ 15 % 2 ^ 5 ≡ rs1 = omega arith in
    let csr : w / 2 ^ 20 ≡ 0x180 = omega arith in
    rw
      (
        enc_i-sum 0x180 rs1 1 0 0x73 ls (omega arith) (omega arith) (omega arith),
        op,
        dest,
        kind,
        source,
        csr,
      )
      refl

pub jalr-execute :
    (h : Hart) → execute (insn_jalr 0 1 0) h ≡ record h { pc = h.regs 1 % 2 ^ 32 / 2 * 2 }
unfolding execute insn_jalr enc_i
jalr-execute h = let e : h.regs 1 + 0 ≡ h.regs 1 = omega arith in rw e refl
