-- ===== src/Klib/Stdlib.antt =====
-- stdlib.c, with `unsigned long` and `size_t` of 64 bits.
use Prim.Native.Nat.{bit_and}
use triathlon.Prelude.{
  ℕ, zero, suc, ◌+◌, ◌-◌, ◌*◌, ◌/◌, ◌%◌, ◌^◌, ◌&&◌, Option, none, some, ◌==◌, leb, if◌then◌else◌,
}
use triathlon.Prelude.Bits.{bit_not}
use triathlon.Prelude.Words.{u32, u64, add_int, sub_int, is_neg_int}
use triathlon.Prelude.Store.{Store}
pub mod Random
pub mod Numbers
pub mod Heap

-- The statics; NULL is 0.
pub record Stdlib : Type 0 where
  pub next : ℕ
  pub start_addr : ℕ

unfoldable pub rand : Stdlib → ℕ × Stdlib
rand g =
    let next = u64 (u64 (g.next * 1103515245) + 12345) in
    (u32 (next / 65536) % 32768, record g { next = next })

unfoldable pub srand : ℕ → Stdlib → Stdlib
srand seed g = record g { next = u32 seed }

unfoldable pub abs : ℕ → ℕ
abs x = if is_neg_int x then sub_int 0 x else x

-- `while (*nptr == ' ') nptr++`.
unfoldable pub skip_spaces : ℕ → ℕ → Store → Option ℕ
skip_spaces zero nptr m = none
skip_spaces (suc fuel) nptr m =
    let rest = skip_spaces fuel (nptr + 1) m in if m nptr == 32 then rest else some nptr

-- The loop over the digits, with what has been read as `x`.
unfoldable pub read_digits : ℕ → ℕ → ℕ → Store → Option ℕ
read_digits zero nptr x m = none
read_digits (suc fuel) nptr x m =
    let rest = read_digits fuel (nptr + 1) (sub_int (add_int (u32 (x * 10)) (m nptr)) 48) m in
    if leb 48 (m nptr) && leb (m nptr) 57 then rest else some x

unfoldable pub atoi : ℕ → ℕ → Store → Option ℕ
atoi fuel nptr m = elim (skip_spaces fuel nptr m) [ none ↦ none | some p ↦ read_digits fuel p 0 m ]

-- `ROUNDUP(a, 8)` of klib-macros.h, in 64 bits.
unfoldable pub round_up_8 : ℕ → ℕ
round_up_8 a = bit_and (u64 (a + 7)) (bit_not 64 7)

-- `heap_start` is `heap.start`, which the machine's start-up code provides.
unfoldable pub malloc : ℕ → ℕ → Stdlib → ℕ × Stdlib
malloc heap_start size g =
    let old = if g.start_addr == 0 then round_up_8 heap_start else g.start_addr in
    (old, record g { start_addr = u64 (old + round_up_8 size) })

unfoldable pub free : ℕ → Stdlib → Stdlib
free ptr g = g
