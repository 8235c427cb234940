-- ===== src/Prelude/Fields.antt =====
-- Fields of a word: what a shift does to the digits, and `(x & ~(mask << s)) | (d << s)`.
use Prim.Native.Nat.{bit_and, bit_or}
use native.Mathlib.Nat.{pow-suc, one-le-pow, div-div-eq-div-mul, mul_assoc, mod-lt, mod-eq_of_lt}
use triathlon.Prelude.Tests.{le_or_lt, ltb, if◌then◌else◌}
use triathlon.Prelude.{
  ℕ, zero, suc, ◌+◌, ◌-◌, ◌*◌, ◌/◌, ◌%◌, ◌^◌, ◌≤◌, ◌<◌, ◌≡◌, refl, sym, ap, ◌∙◌, arith, ◌⊎◌, inl,
  inr,
}
use triathlon.Prelude.Bits.{
  bit, bit-lt, bit-and, bit-or, bit_not, bit-not, bit-mod, bit-above, bit-ones, bit_ext,
  lt_of_digits,
}

pub bit-shr : (i k n : ℕ) → bit i (n / 2 ^ k) ≡ bit (i + k) n
bit-shr i zero n =
    let e : i + 0 ≡ i = omega arith in let d : n / 2 ^ 0 ≡ n = omega arith in rw (e, d) refl
bit-shr i (suc k) n = ap (bit i) halve ∙ bit-shr (suc i) k n ∙ ap (λ j. bit j n) shifted
  where
    halve : n / 2 ^ suc k ≡ n / 2 ^ k / 2
    halve = rw (pow-suc 2 k) (sym (div-div-eq-div-mul n (2 ^ k) 2))

    shifted : suc i + k ≡ i + suc k
    shifted = omega arith

-- Multiplying by `2 ^ s` moves every digit `s` places up.
pub bit-shl : (i s n : ℕ) → bit i (n * 2 ^ s) ≡ (if ltb i s then 0 else bit (i - s) n)
bit-shl i zero n =
    let e : i - 0 ≡ i = omega arith in
    let d : n * 2 ^ 0 ≡ n = omega arith in rw (e, d) (ground arith)
bit-shl zero (suc s) n = rw even (ground arith)
  where
    even : n * 2 ^ suc s ≡ n * 2 ^ s * 2
    even = rw (pow-suc 2 s) (sym (mul_assoc n (2 ^ s) 2))
bit-shl (suc i) (suc s) n = ap (bit i) halve ∙ bit-shl i s n ∙ ground arith
  where
    even : n * 2 ^ suc s ≡ n * 2 ^ s * 2
    even = rw (pow-suc 2 s) (sym (mul_assoc n (2 ^ s) 2))

    halve : n * 2 ^ suc s / 2 ≡ n * 2 ^ s
    halve = omega (arith, even)

-- The field of `k` digits from digit `s` on.
abbrev pub field : ℕ → ℕ → ℕ → ℕ
field s k x = x / 2 ^ s % 2 ^ k

-- The assignment `(x & ~(mask << s)) | (d << s)` in `w` bits, with a mask of `k` ones.
abbrev pub put_field : ℕ → ℕ → ℕ → ℕ → ℕ → ℕ
put_field w s k x d = bit_or (bit_and x (bit_not w ((2 ^ k - 1) * 2 ^ s))) (d * 2 ^ s)

pub bit-field : (i s k x : ℕ) → bit i (field s k x) ≡ (if ltb i k then bit (i + s) x else 0)
bit-field i s k x =
    ground (arith, bit-mod i k (x / 2 ^ s), bit-shr i s x, bit-above i k (field s k x) below)
  where
    below : field s k x < 2 ^ k
    below = mod-lt (x / 2 ^ s) (one-le-pow k 2 (omega arith))

pub shl-lt : (s k w d : ℕ) → s + k ≤ w → d < 2 ^ k → d * 2 ^ s < 2 ^ w
shl-lt s k w d h l = lt_of_digits w (d * 2 ^ s) above
  where
    above : (i : ℕ) → w ≤ i → bit i (d * 2 ^ s) ≡ 0
    above i le = rw (bit-shl i s d) (ground (arith, bit-above (i - s) k d l))

pub ones-lt : (k : ℕ) → 2 ^ k - 1 < 2 ^ k
ones-lt k = omega (arith, one-le-pow k 2 (omega arith))

-- Each digit of the result comes from the new field or from the old word.
pub bit-put_field :
    (i w s k x d : ℕ)
    → s + k ≤ w
    → x < 2 ^ w
    → d < 2 ^ k
    → bit i (put_field w s k x d)
      ≡ (if ltb i s then bit i x else if ltb i (s + k) then bit (i - s) d else bit i x)
bit-put_field i w s k x d h lx ld = elim (le_or_lt i w) [
  | inl above ↦ outside above
  | inr below ↦ inside below
]
  where
    Split : Type 0
    Split =
        bit i (put_field w s k x d)
        ≡ (if ltb i s then bit i x else if ltb i (s + k) then bit (i - s) d else bit i x)

    outside : w ≤ i → Split
    outside le =
        rw (bit-or, bit-and, bit-above i w x lx le, bit-shl)
          (ground (arith, bit-above (i - s) k d ld))

    inside : i < w → Split
    inside lt =
        rw
          (
            bit-or,
            bit-and,
            bit-not i w _ lt (shl-lt s k w (2 ^ k - 1) h (ones-lt k)),
            bit-shl,
            bit-shl,
            bit-ones,
          )
          (ground (arith, bit-lt i x, bit-above (i - s) k d ld))

pub put_field-lt : (w s k x d : ℕ) → s + k ≤ w → x < 2 ^ w → d < 2 ^ k → put_field w s k x d < 2 ^ w
put_field-lt w s k x d h lx ld = lt_of_digits w (put_field w s k x d) above
  where
    above : (i : ℕ) → w ≤ i → bit i (put_field w s k x d) ≡ 0
    above i le =
        bit-put_field i w s k x d h lx ld
        ∙ ground (arith, bit-above i w x lx le, bit-above (i - s) k d ld)

-- The assigned field reads back.
pub field-put_field :
    (w s k x d : ℕ) → s + k ≤ w → x < 2 ^ w → d < 2 ^ k → field s k (put_field w s k x d) ≡ d
field-put_field w s k x d h lx ld = bit_ext _ _ same
  where
    same : (i : ℕ) → bit i (field s k (put_field w s k x d)) ≡ bit i d
    same i =
        rw (bit-field i s k (put_field w s k x d), bit-put_field (i + s) w s k x d h lx ld)
          (ground (arith, bit-above i k d ld, ap (λ j. bit j d) back))
      where
        back : i + s - s ≡ i
        back = omega arith

-- A field beside it is kept.
pub field-other :
    (w s k x d t l : ℕ)
    → s + k ≤ w
    → x < 2 ^ w
    → d < 2 ^ k
    → (t + l ≤ s) ⊎ (s + k ≤ t)
    → field t l (put_field w s k x d) ≡ field t l x
field-other w s k x d t l h lx ld apart = bit_ext _ _ same
  where
    same : (i : ℕ) → bit i (field t l (put_field w s k x d)) ≡ bit i (field t l x)
    same i =
        rw
          (
            bit-field i t l (put_field w s k x d),
            bit-put_field (i + t) w s k x d h lx ld,
            bit-field i t l x,
          )
          (ground arith)

-- So is every part of the assigned field.
pub field-inside :
    (w s k x d t l : ℕ)
    → s + k ≤ w
    → x < 2 ^ w
    → d < 2 ^ k
    → s ≤ t
    → t + l ≤ s + k
    → field t l (put_field w s k x d) ≡ field (t - s) l d
field-inside w s k x d t l h lx ld le inside = bit_ext _ _ same
  where
    same : (i : ℕ) → bit i (field t l (put_field w s k x d)) ≡ bit i (field (t - s) l d)
    same i =
        rw
          (
            bit-field i t l (put_field w s k x d),
            bit-put_field (i + t) w s k x d h lx ld,
            bit-field i (t - s) l d,
          )
          (ground (arith, ap (λ j. bit j d) back))
      where
        back : i + (t - s) ≡ i + t - s
        back = omega arith

-- Assigning all of a word leaves nothing of the old one.
pub put_field-all : (w x d : ℕ) → x < 2 ^ w → d < 2 ^ w → put_field w 0 w x d ≡ d
put_field-all w x d lx ld = bit_ext _ _ λ i.
    rw (bit-put_field i w 0 w x d (omega arith) lx ld)
      (ground (arith, bit-above i w x lx, bit-above i w d ld))

-- A field below digit `k` does not see what is cut off there.
pub field-mod : (t l k v : ℕ) → t + l ≤ k → field t l (v % 2 ^ k) ≡ field t l v
field-mod t l k v h =
    bit_ext _ _
      λ i. rw (bit-field i t l (v % 2 ^ k), bit-field i t l v) (ground (arith, bit-mod (i + t) k v))

-- Two neighbouring fields, put together by `|` and `<<`.
pub join : (v k l : ℕ) → bit_or (field 0 k v) (field k l v * 2 ^ k) ≡ field 0 (k + l) v
join v k l = bit_ext _ _ same
  where
    same : (i : ℕ) → bit i (bit_or (field 0 k v) (field k l v * 2 ^ k)) ≡ bit i (field 0 (k + l) v)
    same i =
        rw
          (
            bit-or,
            bit-shl i k (field k l v),
            bit-field i 0 k v,
            bit-field (i - k) k l v,
            bit-field i 0 (k + l) v,
          )
          (ground (arith, ap (λ (j : ℕ). bit j v)))

pub field-all : (v k : ℕ) → v < 2 ^ k → field 0 k v ≡ v
field-all v k h = let e : v / 2 ^ 0 ≡ v = omega arith in rw e (mod-eq_of_lt h)

split_at : (m h n : ℕ) → n < m → ((h * m + n) % m ≡ n) × ((h * m + n) / m ≡ h)
split_at m h n l = (grind arith, grind arith)

-- `|` puts a number below one whose low digits are clear.
pub bit_or_add : (k h n : ℕ) → n < 2 ^ k → bit_or (h * 2 ^ k) n ≡ h * 2 ^ k + n
bit_or_add k h n l = bit_ext _ _ same
  where
    v : ℕ
    v = h * 2 ^ k + n

    low : (i : ℕ) → i < k → bit i v ≡ bit i n
    low i lt = sym (bit-mod i k v lt) ∙ ap (bit i) ((split_at (2 ^ k) h n l).0)

    high : (i : ℕ) → k ≤ i → bit i v ≡ bit (i - k) h
    high i le =
        let e : i - k + k ≡ i = omega arith in
        ap (λ j. bit j v) (sym e)
        ∙ sym (bit-shr (i - k) k v)
        ∙ ap (bit (i - k)) ((split_at (2 ^ k) h n l).1)

    same : (i : ℕ) → bit i (bit_or (h * 2 ^ k) n) ≡ bit i v
    same i = elim (le_or_lt i k) [
      | inr lt ↦ rw (bit-or, bit-shl) (ground (arith, low i lt))
      | inl le ↦ rw (bit-or, bit-shl, bit-above i k n l le) (ground (arith, high i le))
    ]
