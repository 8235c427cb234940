-- ===== src/Nes/Cpu/Status.antt =====
-- The status register after an addition or a subtraction.
use Prim.Native.Nat.{bit_and}
use triathlon.Prelude.{
  ℕ, ◌+◌, ◌%◌, ◌<◌, ◌≡◌, refl, Bool, ◌||◌, arith, ◌==◌, ltb, leb, if◌then◌else◌,
}
use triathlon.Prelude.Bits.{bit, bit_and_mask}
use triathlon.Prelude.Words.{u8, b2n}
use triathlon.Nes.State.{Machine}
use triathlon.Nes.Common.{common_modify_bitb}
use triathlon.Nes.Common.Digits.{bit-modify_bitb, bit-u8}
use triathlon.Nes.Cpu.{zn_flags}
use triathlon.Nes.Cpu.Flags.{bit-zn_flags}

-- The registers and the operand hold bytes.
pub record HoldsBytes (s : Machine) : Type 0 where
  pub a_byte : s.cpu.a < 256
  pub p_byte : s.cpu.p < 256
  pub value_byte : s.op_value < 256

-- A byte read as a two's complement number, 256 added.
abbrev pub signed_up : ℕ → ℕ
signed_up n = if ltb n 128 then n + 256 else n

-- A number with 512 added leaves -128 to 127.
abbrev pub out_of_range : ℕ → Bool
out_of_range n = ltb n 384 || ltb 639 n

-- The status after carry, overflow, and the value's own two flags.
bit-status :
    (j p a : ℕ) (c v : Bool)
    → j < 8
    → a < 256
    → bit j (u8 (zn_flags (u8 (common_modify_bitb (u8 (common_modify_bitb p 0 c)) 6 v)) a)) ≡ (
        if j == 1
        then b2n (a == 0)
        else if j == 7
        then bit 7 a
        else if j == 6
        then b2n v
        else if j == 0
        then b2n c
        else bit j p)
bit-status j p a c v h k =
    rw
      (
        bit-u8 j (zn_flags (u8 (common_modify_bitb (u8 (common_modify_bitb p 0 c)) 6 v)) a) h,
        bit-zn_flags j _ a h k,
        bit-u8 j (common_modify_bitb (u8 (common_modify_bitb p 0 c)) 6 v) h,
        bit-modify_bitb j 6 (u8 (common_modify_bitb p 0 c)) v h (omega arith),
        bit-u8 j (common_modify_bitb p 0 c) h,
        bit-modify_bitb j 0 p c h (omega arith),
      )
      refl

-- What `p'` says of a sum or difference whose low byte is `low`, next to the old `p`.
pub record Status (p p' low : ℕ) (carry overflow : Bool) : Type 0 where
  pub carry_flag : bit 0 p' ≡ b2n carry
  pub zero_flag : bit 1 p' ≡ b2n (low == 0)
  pub interrupt_flag : bit 2 p' ≡ bit 2 p
  pub decimal_flag : bit 3 p' ≡ bit 3 p
  pub break_flag : bit 4 p' ≡ bit 4 p
  pub unused_flag : bit 5 p' ≡ bit 5 p
  pub overflow_flag : bit 6 p' ≡ b2n overflow
  pub negative_flag : bit 7 p' ≡ bit 7 low

pub flags-Status :
    (p a : ℕ) (c v : Bool)
    → a < 256
    → Status p (u8 (zn_flags (u8 (common_modify_bitb (u8 (common_modify_bitb p 0 c)) 6 v)) a)) a c v
flags-Status p a c v k = record {
  carry_flag = bit-status 0 p a c v (omega arith) k;
  zero_flag = bit-status 1 p a c v (omega arith) k;
  interrupt_flag = bit-status 2 p a c v (omega arith) k;
  decimal_flag = bit-status 3 p a c v (omega arith) k;
  break_flag = bit-status 4 p a c v (omega arith) k;
  unused_flag = bit-status 5 p a c v (omega arith) k;
  overflow_flag = bit-status 6 p a c v (omega arith) k;
  negative_flag = bit-status 7 p a c v (omega arith) k;
}

pub low_byte : (n : ℕ) → u8 (bit_and n 0xff) ≡ n % 256
low_byte n = omega (arith, bit_and_mask 8 n)

pub sign_digit : (n : ℕ) → bit 7 n ≡ b2n (leb 128 (n % 256))
sign_digit n = ground arith
