-- ===== src/Nes/Cpu/Subtraction.antt =====
-- `cpu_op_sbc` against the difference of bytes.
use Prim.Native.Nat.{bit_and, bit_xor}
use triathlon.Prelude.{ℕ, ◌+◌, ◌-◌, ◌%◌, ◌^◌, ◌<◌, ◌≡◌, refl, not, arith, leb, if◌then◌else◌}
use triathlon.Prelude.Bits.{bit, bit-lt, bit-and, bit-xor, bit_and_pow, differ_lem}
use triathlon.Prelude.Words.{truth, sub_int}
use triathlon.Nes.State.{Machine}
use triathlon.Nes.Common.Digits.{common_bit_set_lem}
use triathlon.Nes.Cpu.{carry_bp, cpu_flag_set}
use triathlon.Nes.Cpu.Status.{
  HoldsBytes, signed_up, out_of_range, Status, flags-Status, low_byte, sign_digit,
}
use triathlon.Nes.Ops.{cpu_op_sbc}

-- The borrow of a subtraction is a clear carry.
abbrev pub borrow : Machine → ℕ
borrow s = 1 - bit 0 s.cpu.p

-- The byte of the difference.
abbrev pub difference_of : Machine → ℕ
difference_of s = (s.cpu.a + 512 - s.op_value - borrow s) % 256

-- The difference in 32 bits, with the borrow `b`.
sbc_result :
    (s : Machine)
    → HoldsBytes s
    → sub_int (sub_int s.cpu.a s.op_value) (if cpu_flag_set carry_bp s then 0 else 1) ≡ (
        if leb (s.op_value + borrow s) s.cpu.a
        then s.cpu.a - (s.op_value + borrow s)
        else 2 ^ 32 + s.cpu.a - (s.op_value + borrow s))
sbc_result s h = ground (arith, common_bit_set_lem 0 s.cpu.p, bit-lt 0 s.cpu.p)

low_difference :
    (s : Machine)
    → HoldsBytes s
    → sub_int (sub_int s.cpu.a s.op_value) (if cpu_flag_set carry_bp s then 0 else 1) % 256
      ≡ difference_of s
low_difference s h = rw (sbc_result s h) (ground arith)

carry_out :
    (a t n : ℕ)
    → a < 256
    → t < 257
    → n ≡ (if leb t a then a - t else 2 ^ 32 + a - t)
    → not (truth (bit_and n 0x100)) ≡ leb t a
carry_out a t n ha ht e = ground (arith, bit_and_pow n 8)

overflow_out :
    (a v b n : ℕ)
    → a < 256
    → v < 256
    → b < 2
    → n % 256 ≡ (a + 512 - v - b) % 256
    → truth (bit_and (bit_and (bit_xor a v) (bit_xor a n)) 0x80)
      ≡ out_of_range (signed_up a + 512 - signed_up v - b)
overflow_out a v b n ha hv hb e =
    rw
      (
        bit_and_pow (bit_and (bit_xor a v) (bit_xor a n)) 7,
        bit-and,
        bit-xor 7 a v,
        bit-xor 7 a n,
        differ_lem (bit 7 a) (bit 7 v) (bit-lt 7 a) (bit-lt 7 v),
        differ_lem (bit 7 a) (bit 7 n) (bit-lt 7 a) (bit-lt 7 n),
        sign_digit a,
        sign_digit v,
        sign_digit n,
        e,
      )
      (ground arith)

-- `SBC` subtracts the operand and the borrow, a clear carry, from the accumulator: the byte that
-- it leaves there, signed overflow, zero and sign are those of the difference, the carry is set
-- when there was no borrow, and the other four flags stay. The registers and the operand must
-- hold bytes.
pub sbc-subtracts :
    (s : Machine)
    → HoldsBytes s
    → let s' = cpu_op_sbc s in
      (s'.cpu.a ≡ difference_of s)
      × Status s.cpu.p s'.cpu.p
          (difference_of s)
          (leb (s.op_value + borrow s) s.cpu.a)
          (out_of_range (signed_up s.cpu.a + 512 - signed_up s.op_value - borrow s))
unfolding cpu_op_sbc
sbc-subtracts s h =
    let n : ℕ = sub_int (sub_int s.cpu.a s.op_value) (if cpu_flag_set carry_bp s then 0 else 1) in
    let low : n % 256 ≡ difference_of s = low_difference s h in
    rw
      (
        carry_out s.cpu.a (s.op_value + borrow s) n h.a_byte (omega (arith, h.value_byte))
            (sbc_result s h),
        overflow_out s.cpu.a s.op_value (borrow s) n h.a_byte h.value_byte (omega arith) low,
        low_byte n,
        low,
      )
      (refl, flags-Status s.cpu.p (difference_of s) _ _ (omega arith))
