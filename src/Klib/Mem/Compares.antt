-- ===== src/Klib/Mem/Compares.antt =====
-- What memcmp of string.c answers.
use triathlon.Prelude.{
  ℕ, zero, suc, ◌+◌, ◌<◌, ◌≡◌, ◌↔◌, refl, ◌∙◌, arith, ◌==◌, Bool-cases, inl, inr, ap,
}
use triathlon.Prelude.Words.{sub_int}
use triathlon.Prelude.Store.{Store}
use triathlon.Klib.Bytes.{AreBytes}
use triathlon.Klib.Mem.{memcmp}

-- The two runs of `n` cells hold the same.
abbrev pub SameCells : Store → ℕ → ℕ → ℕ → Type 0
SameCells m a b n = (i : ℕ) → i < n → m (a + i) ≡ m (b + i)

pub SameCells-next :
    (m : Store) (a b n : ℕ) → m a ≡ m b → SameCells m (a + 1) (b + 1) n → SameCells m a b (suc n)
SameCells-next m a b n e h zero l = ap m (omega arith) ∙ e ∙ ap m (omega arith)
SameCells-next m a b n e h (suc i) l = ap m (omega arith) ∙ h i (omega arith) ∙ ap m (omega arith)

pub SameCells-tail :
    (m : Store) (a b n : ℕ) → SameCells m a b (suc n) → SameCells m (a + 1) (b + 1) n
SameCells-tail m a b n h i l = ap m (omega arith) ∙ h (suc i) (omega arith) ∙ ap m (omega arith)

pub SameCells-head : (m : Store) (a b n : ℕ) → SameCells m a b (suc n) → m a ≡ m b
SameCells-head m a b n h = ap m (omega arith) ∙ h 0 (omega arith) ∙ ap m (omega arith)

-- The difference of two bytes is zero only between equal ones.
pub no_difference : (x y : ℕ) → x < 256 → y < 256 → sub_int x y ≡ 0 → x ≡ y
no_difference x y h k e = omega arith

-- `memcmp` of memory that holds bytes gives 0 exactly when the two runs hold the same.
pub memcmp_iff : (a b n : ℕ) (m : Store) → AreBytes m → (memcmp a b n m ≡ 0) ↔ SameCells m a b n
unfolding memcmp
memcmp_iff a b zero m h = (λ _ i l. absurd (omega arith), λ _. refl)
memcmp_iff a b (suc n) m h = elim (Bool-cases (m a == m b)) [
  | inl e ↦ rw e (
    λ r. SameCells-next m a b n (ground arith) ((memcmp_iff (a + 1) (b + 1) n m h).0 r),
    λ s. (memcmp_iff (a + 1) (b + 1) n m h).1 (SameCells-tail m a b n s),
  )
  | inr e ↦ rw e (
    λ r. absurd (ground (arith, no_difference (m a) (m b) (h a) (h b) r)),
    λ s. absurd (ground (arith, SameCells-head m a b n s)),
  )
]
