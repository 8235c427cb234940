-- ===== src/Nes/Cpu/Comparison.antt =====
-- `cpu_compare` against the order of bytes.
use Prim.Native.Nat.{bit_and}
use triathlon.Prelude.{
  ℕ, ◌+◌, ◌-◌, ◌%◌, ◌<◌, ◌≤◌, ◌≡◌, refl, ap, ◌∙◌, Bool, not, arith, ◌==◌, leb, if◌then◌else◌,
}
use triathlon.Prelude.Bits.{bit, bit_and_pow}
use triathlon.Prelude.Words.{u8, b2n, truth, sub_int, is_neg_int, shr_int}
use triathlon.Nes.State.{Machine}
use triathlon.Nes.Common.{common_modify_bitb}
use triathlon.Nes.Common.Digits.{bit-modify_bitb, bit-u8}
use triathlon.Nes.Cpu.{cpu_compare}

bit-compared :
    (j p : ℕ) (c z n : Bool)
    → j < 8
    → bit j
        (u8 (common_modify_bitb (u8 (common_modify_bitb (u8 (common_modify_bitb p 0 c)) 1 z)) 7 n))
      ≡ (if j == 7 then b2n n else if j == 1 then b2n z else if j == 0 then b2n c else bit j p)
bit-compared j p c z n h =
    rw
      (
        bit-u8 j
            (common_modify_bitb (u8 (common_modify_bitb (u8 (common_modify_bitb p 0 c)) 1 z)) 7 n)
            h,
        bit-modify_bitb j 7 (u8 (common_modify_bitb (u8 (common_modify_bitb p 0 c)) 1 z)) n h
            (omega arith),
        bit-u8 j (common_modify_bitb (u8 (common_modify_bitb p 0 c)) 1 z) h,
        bit-modify_bitb j 1 (u8 (common_modify_bitb p 0 c)) z h (omega arith),
        bit-u8 j (common_modify_bitb p 0 c) h,
        bit-modify_bitb j 0 p c h (omega arith),
      )
      refl

module _ (reg v : ℕ) (h : reg < 256) (k : v < 256) where
  no_borrow : not (is_neg_int (sub_int reg v)) ≡ leb v reg
  no_borrow = ground arith

  none_left : (sub_int reg v == 0) ≡ (reg == v)
  none_left = ground arith

  sign_left : truth (bit_and (shr_int (sub_int reg v) 7) 1) ≡ leb 128 ((reg + 256 - v) % 256)
  sign_left = ground (arith, bit_and_pow (shr_int (sub_int reg v) 7) 0)

-- `CMP`, `CPX` and `CPY` set the carry when the register is not below the operand, the zero flag
-- when they are equal, the sign from the byte of their difference, and change nothing else. The
-- register and the operand must hold bytes.
pub compare-orders :
    (reg j : ℕ) (s : Machine)
    → reg < 256
    → s.op_value < 256
    → 2 ≤ j
    → j < 7
    → let s' = cpu_compare reg s in
      (s' ≡ record s { cpu = record (s.cpu) { p = s'.cpu.p } })
      × (bit 0 s'.cpu.p ≡ b2n (leb s.op_value reg))
      × (bit 1 s'.cpu.p ≡ b2n (reg == s.op_value))
      × (bit 7 s'.cpu.p ≡ b2n (leb 128 ((reg + 256 - s.op_value) % 256)))
      × (bit j s'.cpu.p ≡ bit j s.cpu.p)
unfolding cpu_compare
compare-orders reg j s h k lo hi = (
  refl,
  bit-compared 0 s.cpu.p _ _ _ (omega arith) ∙ ap b2n (no_borrow reg s.op_value h k),
  bit-compared 1 s.cpu.p _ _ _ (omega arith) ∙ ap b2n (none_left reg s.op_value h k),
  bit-compared 7 s.cpu.p _ _ _ (omega arith) ∙ ap b2n (sign_left reg s.op_value h k),
  bit-compared j s.cpu.p _ _ _ (omega arith) ∙ ground arith,
)
