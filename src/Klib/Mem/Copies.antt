-- ===== src/Klib/Mem/Copies.antt =====
-- What the copies and fills of string.c leave in memory.
use triathlon.Prelude.{
  ℕ, zero, suc, ◌+◌, ◌≤◌, ◌<◌, ◌≡◌, ◌⊎◌, inl, inr, sym, ◌∙◌, ◌&&◌, arith, ltb, leb, if◌then◌else◌,
}
use triathlon.Prelude.Words.{u8}
use triathlon.Prelude.Store.{Store, update}
use triathlon.Klib.Bytes.{copied, Apart}
use triathlon.Klib.Mem.{memset, copy_up, copy_down, memmove, memcpy}

-- A first cell copied by hand, whose source is not among what is copied after it.
up_step :
    (d s n k : ℕ) (m : Store)
    → (d ≤ s) ⊎ (s + suc n ≤ d)
    → copied (update m d (m s)) (d + 1) (s + 1) n k ≡ copied m d s (suc n) k
unfolding update
up_step d s n k m (inl h) = grind arith
up_step d s n k m (inr h) = grind arith

shifted : (d s n : ℕ) → (d ≤ s) ⊎ (s + suc n ≤ d) → (d + 1 ≤ s + 1) ⊎ (s + 1 + n ≤ d + 1)
shifted d s n (inl h) = inl (omega arith)
shifted d s n (inr h) = inr (omega arith)

copy_up_lem :
    (d s n k : ℕ) (m : Store) → (d ≤ s) ⊎ (s + n ≤ d) → copy_up d s n m k ≡ copied m d s n k
unfolding copy_up
copy_up_lem d s zero k m h = ground arith
copy_up_lem d s (suc n) k m h =
    copy_up_lem (d + 1) (s + 1) n k (update m d (m s)) (shifted d s n h) ∙ up_step d s n k m h

down_step :
    (d s n k : ℕ) (m : Store)
    → s ≤ d
    → copied (update m (d + n) (m (s + n))) d s n k ≡ copied m d s (suc n) k
unfolding update
down_step d s n k m h = grind arith

copy_down_lem : (d s n k : ℕ) (m : Store) → s ≤ d → copy_down d s n m k ≡ copied m d s n k
unfolding copy_down
copy_down_lem d s zero k m h = ground arith
copy_down_lem d s (suc n) k m h =
    copy_down_lem d s n k (update m (d + n) (m (s + n))) h ∙ down_step d s n k m h

-- `memmove` leaves at the destination what the source held before the call, however the two
-- overlap, and every other cell as it was.
pub memmove-copies : (dst src n k : ℕ) (m : Store) → memmove dst src n m k ≡ copied m dst src n k
unfolding memmove
memmove-copies dst src n k m = ground (
  arith,
  λ (h : dst < src). copy_up_lem dst src n k m (inl (omega arith)),
  λ (h : src ≤ dst). copy_down_lem dst src n k m h,
)

-- `memcpy` does what `memmove` does when source and destination share no cell.
pub memcpy-memmove :
    (out from n k : ℕ) (m : Store)
    → Apart out from n
    → memcpy out from n m k ≡ memmove out from n m k
unfolding memcpy
memcpy-memmove out from n k m (inl h) =
    copy_up_lem out from n k m (inl (omega arith)) ∙ sym (memmove-copies out from n k m)
memcpy-memmove out from n k m (inr h) =
    copy_up_lem out from n k m (inr h) ∙ sym (memmove-copies out from n k m)

-- `memset` fills the `n` cells from `s` on with the low byte of `c` and leaves the others.
pub memset-fills :
    (s c n k : ℕ) (m : Store) → memset s c n m k ≡ (if leb s k && ltb k (s + n) then u8 c else m k)
unfolding memset update
memset-fills s c zero k m = ground arith
memset-fills s c (suc n) k m = ground (arith, memset-fills (s + 1) c n k (update m s (u8 c)))
