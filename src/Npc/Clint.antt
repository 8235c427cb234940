-- ===== src/Npc/Clint.antt =====
-- The timer of memory_models.h: 64-bit registers that the 32-bit bus reads and writes by halves.
use Prim.Native.Nat.{bit_and, bit_or}
use triathlon.Prelude.{
  ℕ, ◌^◌, ◌%◌, ◌+◌, ◌*◌, ◌/◌, ◌<◌, ◌≤◌, Bool, false, ◌==◌, leb, if◌then◌else◌, ◌≡◌, refl, ◌∙◌, inl,
  inr, ap, arith,
}
use triathlon.Prelude.Words.{◌<<◌, ◌>>◌, u64}
use triathlon.Prelude.Bits.{bit_and_mask}
use triathlon.Prelude.Fields.{field, put_field, put_field-lt, field-put_field, field-other}
use triathlon.Npc.State.{
  Clint, clint_mtimecmp_low, clint_mtimecmp_high, clint_mtime_low, clint_mtime_high,
}

unfoldable pub set_time_us : ℕ → Clint → Clint
set_time_us t c = record c { rtc_time_us = t; mtime = t }

unfoldable pub timer_irq_pending : Clint → Bool
timer_irq_pending c = leb c.mtimecmp c.mtime

-- The assignments to one half of a 64-bit register, in `write_word` and `virtio_mmio_write`.
unfoldable pub set_low : ℕ → ℕ → ℕ
set_low x value = bit_or (bit_and x 0xFFFFFFFF00000000) value

unfoldable pub set_high : ℕ → ℕ → ℕ
set_high x value = bit_or (bit_and x 0x00000000FFFFFFFF) (u64 (value << 32))

unfoldable pub low_half : ℕ → ℕ
low_half x = bit_and x 0xFFFFFFFF

unfoldable pub high_half : ℕ → ℕ
high_half x = bit_and (x >> 32) 0xFFFFFFFF

-- The first four cases of `write_word`.
unfoldable pub write_clint : ℕ → ℕ → Clint → Clint
write_clint aligned value c =
    if aligned == clint_mtimecmp_low
    then record c { mtimecmp = set_low c.mtimecmp value }
    else if aligned == clint_mtimecmp_high
    then record c { mtimecmp = set_high c.mtimecmp value }
    else if aligned == clint_mtime_low
    then record c { mtime = set_low c.mtime value }
    else if aligned == clint_mtime_high
    then record c { mtime = set_high c.mtime value }
    else c

set_low-put : (x d : ℕ) → set_low x d ≡ put_field 64 0 32 x d
unfolding set_low
set_low-put x d = let e : d * 2 ^ 0 ≡ d = omega arith in rw e refl

set_high-put : (x d : ℕ) → d < 2 ^ 32 → set_high x d ≡ put_field 64 32 32 x d
unfolding set_high
set_high-put x d h = let e : d * 2 ^ 32 % 2 ^ 64 ≡ d * 2 ^ 32 = omega arith in rw e refl

low-field : (x : ℕ) → low_half x ≡ field 0 32 x
unfolding low_half
low-field x = bit_and_mask 32 x ∙ ap (λ n. n % 2 ^ 32) (omega arith)

high-field : (x : ℕ) → high_half x ≡ field 32 32 x
unfolding high_half
high-field x = bit_and_mask 32 (x / 2 ^ 32)

-- Each half reads back what was assigned to it and keeps the other, and the word stays one of 64 bits.
pub halves :
    (x d : ℕ)
    → x < 2 ^ 64
    → d < 2 ^ 32
    → (low_half (set_low x d) ≡ d)
      × (high_half (set_low x d) ≡ high_half x)
      × (low_half (set_high x d) ≡ low_half x)
      × (high_half (set_high x d) ≡ d)
      × (set_low x d < 2 ^ 64)
      × (set_high x d < 2 ^ 64)
halves x d lx ld =
    rw
      (
        set_low-put x d,
        set_high-put x d ld,
        low-field,
        low-field,
        low-field,
        high-field,
        high-field,
        high-field,
      )
      (
        field-put_field 64 0 32 x d (omega arith) lx ld,
        field-other 64 0 32 x d 32 32 (omega arith) lx ld (inr (omega arith)),
        field-other 64 32 32 x d 0 32 (omega arith) lx ld (inl (omega arith)),
        field-put_field 64 32 32 x d (omega arith) lx ld,
        put_field-lt 64 0 32 x d (omega arith) lx ld,
        put_field-lt 64 32 32 x d (omega arith) lx ld,
      )

-- A word is its two halves.
pub halves_lem : (x : ℕ) → x < 2 ^ 64 → x ≡ low_half x + 2 ^ 32 * high_half x
halves_lem x h = rw (low-field x, high-field x) (omega arith)

-- The three writes that set a comparator: two values out of reach, then the new one.
reach :
    (x lo hi : ℕ)
    → x < 2 ^ 64
    → lo < 2 ^ 32
    → hi < 2 ^ 32
    → (0xFFFFFFFF00000000 ≤ set_high x 0xFFFFFFFF)
      × (0xFFFFFFFF00000000 ≤ set_low (set_high x 0xFFFFFFFF) lo)
      × (set_high (set_low (set_high x 0xFFFFFFFF) lo) hi ≡ lo + 2 ^ 32 * hi)
reach x lo hi lx ll lh =
    let x1 = set_high x 0xFFFFFFFF in
    let (_, _, _, h1, _, l1) = halves x 0xFFFFFFFF lx (omega arith) in
    let x2 = set_low x1 lo in
    let (e2, h2, _, _, l2, _) = halves x1 lo l1 ll in
    let x3 = set_high x2 hi in
    let (_, _, e3, h3, _, l3) = halves x2 hi l2 lh in
    (
      omega (arith, halves_lem x1 l1, h1),
      omega (arith, halves_lem x2 l2, h2, h1),
      omega (arith, halves_lem x3 l3, e3, e2, h3),
    )

-- A new time of comparison is set without a spurious interrupt in between: while the timer is below
-- 0xFFFFFFFF00000000, writing all ones to the upper half, then the lower half, then the upper half
-- leaves the comparator at the new time, and after neither of the first two writes is an interrupt pending.
pub write_clint-safe :
    (c : Clint) (lo hi : ℕ)
    → c.mtimecmp < 2 ^ 64
    → lo < 2 ^ 32
    → hi < 2 ^ 32
    → c.mtime < 0xFFFFFFFF00000000
    → (timer_irq_pending (write_clint clint_mtimecmp_high 0xFFFFFFFF c) ≡ false)
      × (timer_irq_pending
            (write_clint clint_mtimecmp_low lo (write_clint clint_mtimecmp_high 0xFFFFFFFF c))
          ≡ false)
      × (write_clint clint_mtimecmp_high hi
            (write_clint clint_mtimecmp_low lo (write_clint clint_mtimecmp_high 0xFFFFFFFF c))
          ≡ record c { mtimecmp = lo + 2 ^ 32 * hi })
unfolding write_clint timer_irq_pending
write_clint-safe c lo hi lc ll lh before =
    let (far, far', set) = reach c.mtimecmp lo hi lc ll lh in
    (ground arith, ground arith, ap (λ n. record c { mtimecmp = n }) set)
