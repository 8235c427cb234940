-- ===== src/Nes/Common/Digits.antt =====
-- What the operations of common.c do to each binary digit.
use Prim.Native.Nat.{bit_and, bit_or, bit_xor, differ}
use triathlon.Prelude.{
  ℕ, zero, suc, ◌-◌, ◌^◌, ◌<◌, ◌≡◌, refl, Bool, true, false, arith, ◌==◌, if◌then◌else◌,
}
use triathlon.Prelude.Bits.{
  bit, bit-lt, bit-and, bit-or, bit-xor, bit-not, bit_not, bit-two_pow, bit-mod, bit_and_pow,
}
use native.Mathlib.Nat.{pow-le-pow_right, one-le-pow}
use triathlon.Prelude.Words.{u8, b2n}
use triathlon.Nes.Common.{common_bit_set, common_toggle_bitb, common_modify_bitb}

pub bit-u8 : (j n : ℕ) → j < 8 → bit j (u8 n) ≡ bit j n
bit-u8 j n h = bit-mod j 8 n h

two_pow_lt : (k : ℕ) → k < 8 → 2 ^ k < 2 ^ 64
two_pow_lt k h = omega (arith, pow-le-pow_right {n = 2} (omega arith) {i = k} {j = 8} (omega arith))

-- Setting or clearing digit `k` of a byte gives that digit the wanted value and keeps the others.
pub bit-modify_bitb :
    (j k v : ℕ) (b : Bool)
    → j < 8
    → k < 8
    → bit j (common_modify_bitb v k b) ≡ (if j == k then b2n b else bit j v)
unfolding common_modify_bitb
bit-modify_bitb j k v true h hk =
    rw (bit-u8 j (bit_or v (2 ^ k)) h, bit-or, bit-two_pow) (ground (arith, bit-lt j v))
bit-modify_bitb j k v false h hk =
    rw
      (
        bit-u8 j (bit_and v (bit_not 64 (2 ^ k))) h,
        bit-and,
        bit-not j 64 (2 ^ k) (omega arith) (two_pow_lt k hk),
        bit-two_pow,
      )
      (ground (arith, bit-lt j v))

differ_zero : (d : ℕ) → differ d 0 ≡ d
differ_zero zero = refl
differ_zero (suc d) = refl

differ_one : (d : ℕ) → d < 2 → differ d 1 ≡ 1 - d
differ_one zero h = refl
differ_one (suc zero) h = refl
differ_one (suc (suc d)) h = absurd (omega arith)

pub bit-toggle_bitb :
    (j k v : ℕ) → j < 8 → bit j (common_toggle_bitb v k) ≡ (if j == k then 1 - bit j v else bit j v)
unfolding common_toggle_bitb
bit-toggle_bitb j k v h =
    rw (bit-u8 j (bit_xor v (2 ^ k)) h, bit-xor, bit-two_pow)
      (ground (arith, differ_zero (bit j v), differ_one (bit j v), bit-lt j v))

pub modify_bitb-lt : (v k : ℕ) (b : Bool) → common_modify_bitb v k b < 256
unfolding common_modify_bitb
modify_bitb-lt v k true = omega arith
modify_bitb-lt v k false = omega arith

-- `common_bit_set` reads the digit.
pub common_bit_set_lem : (k v : ℕ) → common_bit_set v k ≡ (bit k v == 1)
unfolding common_bit_set
common_bit_set_lem k v = ground (arith, bit_and_pow v k, bit-lt k v, one-le-pow k 2)
