-- ===== src/Klib/Mem.antt =====
-- memset, memmove, memcpy and memcmp of string.c; a pointer is an index of the memory.
use triathlon.Prelude.{ℕ, zero, suc, ◌+◌, ◌==◌, ltb, if◌then◌else◌}
use triathlon.Prelude.Words.{u8, sub_int}
use triathlon.Prelude.Store.{Store, update}
pub mod Copies
pub mod Compares

unfoldable pub memset : ℕ → ℕ → ℕ → Store → Store
memset ptr c zero m = m
memset ptr c (suc n) m = memset (ptr + 1) c n (update m ptr (u8 c))

-- `while (n--) *d++ = *s++`.
unfoldable pub copy_up : ℕ → ℕ → ℕ → Store → Store
copy_up d s zero m = m
copy_up d s (suc n) m = copy_up (d + 1) (s + 1) n (update m d (m s))

-- `while (n--) *--d = *--s`, with both pointers `n` above `d` and `s`.
unfoldable pub copy_down : ℕ → ℕ → ℕ → Store → Store
copy_down d s zero m = m
copy_down d s (suc n) m = copy_down d s n (update m (d + n) (m (s + n)))

unfoldable pub memmove : ℕ → ℕ → ℕ → Store → Store
memmove dst src n m = if ltb dst src then copy_up dst src n m else copy_down dst src n m

unfoldable pub memcpy : ℕ → ℕ → ℕ → Store → Store
memcpy out from n m = copy_up out from n m

unfoldable pub memcmp : ℕ → ℕ → ℕ → Store → ℕ
memcmp p1 p2 zero m = 0
memcmp p1 p2 (suc n) m =
    let rest = memcmp (p1 + 1) (p2 + 1) n m in if m p1 == m p2 then rest else sub_int (m p1) (m p2)
