-- ===== src/Nes/Cpu/Addition.antt =====
-- `cpu_op_adc` against the sum of bytes.
use Prim.Native.Nat.{bit_and, bit_xor}
use triathlon.Prelude.{ℕ, ◌+◌, ◌%◌, ◌<◌, ◌≡◌, refl, ◌||◌, arith, ltb, leb, if◌then◌else◌}
use triathlon.Prelude.Bits.{
  bit, bit-lt, bit-and, bit-xor, bit_not, bit_and_pow, bit-not, bit_xor-lt, differ_lem,
}
use triathlon.Prelude.Words.{truth, add_int}
use triathlon.Nes.State.{Machine}
use triathlon.Nes.Common.Digits.{common_bit_set_lem}
use triathlon.Nes.Cpu.{carry_bp, cpu_flag_set}
use triathlon.Nes.Cpu.Status.{
  HoldsBytes, signed_up, out_of_range, Status, flags-Status, low_byte, sign_digit,
}
use triathlon.Nes.Ops.{cpu_op_adc}

abbrev pub sum_of : Machine → ℕ
sum_of s = s.cpu.a + s.op_value + bit 0 s.cpu.p

adc_sum :
    (s : Machine)
    → HoldsBytes s
    → add_int (add_int s.cpu.a s.op_value) (if cpu_flag_set carry_bp s then 1 else 0) ≡ sum_of s
adc_sum s h = ground (arith, common_bit_set_lem 0 s.cpu.p, bit-lt 0 s.cpu.p)

carry_out : (n : ℕ) → n < 512 → truth (bit_and n 0x100) ≡ leb 256 n
carry_out n h = ground (arith, bit_and_pow n 8)

-- `n` is the sum with or without a carry in.
overflow_out :
    (a v d n : ℕ)
    → a < 256
    → v < 256
    → d < 2
    → n ≡ a + v + d
    → truth (bit_and (bit_and (bit_not 32 (bit_xor a v)) (bit_xor a n)) 0x80)
      ≡ (ltb (signed_up a + signed_up v + d) 384 || ltb 639 (signed_up a + signed_up v + d))
overflow_out a v d n ha hv hd e =
    rw
      (
        bit_and_pow (bit_and (bit_not 32 (bit_xor a v)) (bit_xor a n)) 7,
        bit-and,
        bit-not 7 32 (bit_xor a v) (omega arith) (omega (arith, bit_xor-lt 8 a v ha hv)),
        bit-xor 7 a v,
        bit-xor 7 a n,
        differ_lem (bit 7 a) (bit 7 v) (bit-lt 7 a) (bit-lt 7 v),
        differ_lem (bit 7 a) (bit 7 n) (bit-lt 7 a) (bit-lt 7 n),
        sign_digit a,
        sign_digit v,
        sign_digit n,
      )
      (ground arith)

-- `ADC` adds the operand and the carry to the accumulator: the byte that it leaves there, the
-- carry out of digit 7, signed overflow, zero and sign are those of the sum, and the other four
-- flags stay. The registers and the operand must hold bytes.
pub adc-adds :
    (s : Machine)
    → HoldsBytes s
    → let s' = cpu_op_adc s in
      (s'.cpu.a ≡ sum_of s % 256)
      × Status s.cpu.p s'.cpu.p
          (sum_of s % 256)
          (leb 256 (sum_of s))
          (out_of_range (signed_up s.cpu.a + signed_up s.op_value + bit 0 s.cpu.p))
unfolding cpu_op_adc
adc-adds s h =
    rw
      (
        adc_sum s h,
        carry_out (sum_of s) (omega (arith, bit-lt 0 s.cpu.p)),
        overflow_out s.cpu.a s.op_value (bit 0 s.cpu.p) (sum_of s) h.a_byte h.value_byte
            (bit-lt 0 s.cpu.p) refl,
        low_byte (sum_of s),
      )
      (refl, flags-Status s.cpu.p (sum_of s % 256) _ _ (omega arith))
