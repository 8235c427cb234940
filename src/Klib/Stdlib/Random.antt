-- ===== src/Klib/Stdlib/Random.antt =====
-- The generator of stdlib.c.
use triathlon.Prelude.{ℕ, zero, suc, ◌+◌, ◌*◌, ◌/◌, ◌%◌, ◌^◌, ◌≡◌, refl, ap₂, arith, List, [], ◌∷◌}
use triathlon.Prelude.Words.{u32, u64}
use triathlon.Klib.Stdlib.{Stdlib, rand}

-- `n` numbers in a row.
pub rands : ℕ → Stdlib → List ℕ
rands zero g = []
rands (suc n) g = let (v, g') = rand g in v ∷ rands n g'

low_bits :
    (x : ℕ)
    → u32 (u64 (u64 (x * 1103515245) + 12345) / 65536) % 32768
      ≡ (x % 2 ^ 31 * 1103515245 + 12345) / 65536 % 32768
low_bits x = omega arith

low_next :
    (x : ℕ)
    → u64 (u64 (x * 1103515245) + 12345) % 2 ^ 31 ≡ (x % 2 ^ 31 * 1103515245 + 12345) % 2 ^ 31
low_next x = omega arith

-- The numbers that `rand` gives depend on the low 31 bits of its state alone:
-- two states that agree on them give the same numbers ever after.
pub rands-low : (n : ℕ) (g h : Stdlib) → g.next % 2 ^ 31 ≡ h.next % 2 ^ 31 → rands n g ≡ rands n h
unfolding rands rand
rands-low zero g h e = refl
rands-low (suc n) g h e =
    ap₂ (λ v rest. v ∷ rest) (rw (low_bits g.next, low_bits h.next, e) refl)
      (rands-low n _ _ (rw (low_next g.next, low_next h.next, e) refl))
