-- ===== src/Prelude/Words.antt =====
-- C's unsigned widths as remainders, `int` as its 32-bit pattern, shifts, and one byte bit by bit.
use Prim.Native.Nat.{ℕ, ◌+◌, ◌-◌, ◌*◌, ◌/◌, ◌%◌, ◌^◌}
use mathlib.Core.Bool.{Bool, true, false}
use triathlon.Prelude.Tests.{◌==◌, ltb, if◌then◌else◌}

abbrev pub u8 : ℕ → ℕ
u8 n = n % 2 ^ 8

abbrev pub u16 : ℕ → ℕ
u16 n = n % 2 ^ 16

abbrev pub u32 : ℕ → ℕ
u32 n = n % 2 ^ 32

abbrev pub u64 : ℕ → ℕ
u64 n = n % 2 ^ 64

-- An `int` is its bit pattern, a number below `2 ^ 32`.
abbrev pub add_int : ℕ → ℕ → ℕ
add_int a b = u32 (a + b)

abbrev pub sub_int : ℕ → ℕ → ℕ
sub_int a b = u32 (a + (2 ^ 32 - u32 b))

abbrev pub is_neg_int : ℕ → Bool
is_neg_int a = ltb (2 ^ 31 - 1) a

abbrev pub lt_int : ℕ → ℕ → Bool
lt_int a b = ltb (u32 (a + 2 ^ 31)) (u32 (b + 2 ^ 31))

-- `x >> k` of an `int`: the sign is shifted in.
abbrev pub shr_int : ℕ → ℕ → ℕ
shr_int x k = if is_neg_int x then 2 ^ 32 - 1 - (2 ^ 32 - 1 - x) / 2 ^ k else x / 2 ^ k

infixl 75 ◌<<◌ ◌>>◌
abbrev pub ◌<<◌ : ℕ → ℕ → ℕ
x << k = x * 2 ^ k

abbrev pub ◌>>◌ : ℕ → ℕ → ℕ
x >> k = x / 2 ^ k

-- C's use of a number as a condition.
abbrev pub truth : ℕ → Bool
truth n = elim (n == 0) [ true ↦ false | false ↦ true ]

abbrev pub b2n : Bool → ℕ
b2n true = 1
b2n false = 0
