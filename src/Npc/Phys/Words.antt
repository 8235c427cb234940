-- ===== src/Npc/Phys/Words.antt =====
-- The address arithmetic of memory_models.h: alignment, shifts and the replacement of one field of a word.
use Prim.Native.Nat.{bit_and}
use native.Mathlib.Nat.{mod-eq_of_lt}
use triathlon.Prelude.{
  ℕ, ◌+◌, ◌-◌, ◌*◌, ◌/◌, ◌%◌, ◌^◌, ◌<◌, ◌≤◌, ltb, if◌then◌else◌, ◌≡◌, refl, ap, ◌∙◌, arith,
  le_or_lt, inl, inr,
}
use triathlon.Prelude.Bits.{
  bit_and_mask, bit-and, bit-not, bit-ones, bit_ext, bit, bit-lt, bit-above,
}
use triathlon.Prelude.Fields.{put_field, shl-lt, ones-lt, bit-shl, bit-shr}
use triathlon.Npc.Phys.{aligned, shift_of, word_index, merge}

pub aligned_lem : (a : ℕ) → a < 2 ^ 32 → aligned a ≡ a / 4 * 4
unfolding aligned
aligned_lem a h = bit_ext _ _ same
  where
    quarter : (i : ℕ) → bit i (a / 4 * 4) ≡ (if ltb i 2 then 0 else bit i a)
    quarter i = bit-shl i 2 (a / 4) ∙ rw (bit-shr (i - 2) 2 a) (ground (arith, ap (λ j. bit j a)))

    same : (i : ℕ) → bit i (bit_and a 0xFFFFFFFC) ≡ bit i (a / 4 * 4)
    same i = elim (le_or_lt i 32) [
      | inl le ↦ rw (bit-and, quarter i, bit-above i 32 a h le) (ground arith)
      | inr lt ↦
          rw (bit-and, quarter i, bit-not i 32 3 lt (omega arith), bit-ones i 2)
            (ground (arith, bit-lt i a))
    ]

pub shift_of_lem : (a : ℕ) → shift_of a ≡ a % 4 * 8
unfolding shift_of
shift_of_lem a = ap (λ n. n * 8) (bit_and_mask 2 a)

pub word_index_lem :
    (base a : ℕ) → a < 2 ^ 32 → base % 4 ≡ 0 → base ≤ a → word_index base a ≡ (a - base) / 4
unfolding word_index
word_index_lem base a h d le = rw (aligned_lem a h) (omega arith)

pub merge-put :
    (cur k s v : ℕ) → s + k ≤ 32 → v < 2 ^ k → merge cur (2 ^ k - 1) s v ≡ put_field 32 s k cur v
unfolding merge
merge-put cur k s v h l =
    let e = mod-eq_of_lt (shl-lt s k 32 (2 ^ k - 1) h (ones-lt k)) in
    let f = mod-eq_of_lt (shl-lt s k 32 v h l) in rw (e, f) refl
