-- ===== src/Klib/Stdlib/Heap.antt =====
-- The allocator of stdlib.c.
use Prim.Native.Nat.{bit_and}
use triathlon.Prelude.{
  ℕ, ◌+◌, ◌-◌, ◌*◌, ◌/◌, ◌%◌, ◌^◌, ◌≤◌, ◌<◌, ◌≡◌, refl, arith, ◌==◌, zero, suc, false,
}
use triathlon.Prelude.Bits.{bit, bit-and, bit-ones, bit-above, bit_ext, bit-lt}
use triathlon.Prelude.Words.{u64}
use triathlon.Klib.Stdlib.{Stdlib, malloc, round_up_8}

above_3 : (i : ℕ) → bit (suc (suc (suc i))) (2 ^ 64 - 8) ≡ bit i (2 ^ 61 - 1)
above_3 i = refl

whole_eights : (x i : ℕ) → x < 2 ^ 64 → bit i (bit_and x (2 ^ 64 - 8)) ≡ bit i (x / 8 * 8)
whole_eights x zero h = rw bit-and (omega arith)
whole_eights x (suc zero) h = rw bit-and (omega arith)
whole_eights x (suc (suc zero)) h = rw bit-and (omega arith)
whole_eights x (suc (suc (suc i))) h =
    let left : x / 2 / 2 / 2 ≡ x / 8 = omega arith in
    let right : x / 8 * 8 / 2 / 2 / 2 ≡ x / 8 = omega arith in
    rw (bit-and, above_3, bit-ones, left, right)
      (ground (arith, bit-above i 61 (x / 8) (omega arith), bit-lt i (x / 8)))

rounded : (a : ℕ) → a < 2 ^ 64 - 7 → round_up_8 a ≡ (a + 7) / 8 * 8
unfolding round_up_8
rounded a h =
    let fits : u64 (a + 7) ≡ a + 7 = omega arith in
    rw fits (bit_ext _ _ (λ i. whole_eights (a + 7) i (omega arith)))

-- The first block starts on a multiple of 8 at or above the heap's start, a second one starts on
-- a multiple of 8 at or behind the end of the first, and less than 8 behind it, as far as nothing
-- wraps. The heap must not start at 0 and no block have been given out.
pub malloc-malloc :
    (heap_start size more : ℕ) (g : Stdlib)
    → g.start_addr ≡ 0
    → 0 < heap_start
    → heap_start + size + 16 < 2 ^ 64
    → let (first, g') = malloc heap_start size g in
      let second = (malloc heap_start more g').0 in
      (heap_start ≤ first)
      × (first % 8 ≡ 0)
      × (second % 8 ≡ 0)
      × (first + size ≤ second)
      × (second < first + size + 8)
unfolding malloc
malloc-malloc heap_start size more g fresh lo hi =
    let start = rounded heap_start (omega arith) in
    let block = rounded size (omega arith) in
    let end : u64 ((heap_start + 7) / 8 * 8 + (size + 7) / 8 * 8)
        ≡ (heap_start + 7) / 8 * 8 + (size + 7) / 8 * 8 =
      omega arith in
    let some_end : ((heap_start + 7) / 8 * 8 + (size + 7) / 8 * 8 == 0) ≡ false = ground arith in
    rw (fresh, start, block, end, some_end)
      (omega arith, omega arith, omega arith, omega arith, omega arith)
