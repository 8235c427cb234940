-- ===== src/Prelude/Bits.antt =====
-- The binary digits of a number, and what `&`, `|`, `^` and `~` do to each.
use Prim.Native.Nat.{
  ℕ, zero, suc, ◌+◌, ◌-◌, ◌*◌, ◌/◌, ◌%◌, ◌^◌, ◌≤◌, ◌<◌, min, max, differ, digits, bit_and, bit_or,
  bit_xor, bit_and-bitwise, bit_or-bitwise, bit_xor-bitwise,
}
use mathlib.Core.Path.{◌≡◌, refl, sym, ◌∙◌, ap}
use mathlib.Core.Bool.{Bool, true, ◌&&◌}
use native.Mathlib.Nat.{pow-suc, le_refl, one-le-pow, mod-lt}
use native.Mathlib.Omega.{arith}
use triathlon.Prelude.Tests.{◌==◌, ltb, if◌then◌else◌}

-- Digit `i` of `n`, the lowest first.
abbrev pub bit : ℕ → ℕ → ℕ
bit zero n = n % 2
bit (suc i) n = bit i (n / 2)

pub bit-lt : (i n : ℕ) → bit i n < 2
bit-lt zero n = omega arith
bit-lt (suc i) n = bit-lt i (n / 2)

pub bit-zero : (i : ℕ) → bit i 0 ≡ 0
bit-zero zero = refl
bit-zero (suc i) = bit-zero i

-- `digits` works digit by digit, if `f` makes digits and `z` agrees with it.
module _ (z : ℕ → ℕ) (f : ℕ → ℕ → ℕ) (small : (a b : ℕ) → f (a % 2) (b % 2) < 2)
    (rest : (i b : ℕ) → bit i (z b) ≡ f 0 (bit i b)) where
  bit-rest : (i b : ℕ) → bit i (z b) ≡ f (bit i 0) (bit i b)
  bit-rest i b = rw (bit-zero i) (rest i b)

  bit-digits : (i n a b : ℕ) → a ≤ n → bit i (digits z f n a b) ≡ f (bit i a) (bit i b)
  bit-digits i zero zero b h = bit-rest i b
  bit-digits i zero (suc a) b h = absurd (omega arith)
  bit-digits i (suc n) zero b h = bit-rest i b
  bit-digits zero (suc n) (suc a) b h = omega (arith, small (suc a) b)
  bit-digits (suc i) (suc n) (suc a) b h =
      ap (bit i) halve ∙ bit-digits i n (suc a / 2) (b / 2) (omega arith)
    where
      halve : digits z f (suc n) (suc a) b / 2 ≡ digits z f n (suc a / 2) (b / 2)
      halve = omega (arith, small (suc a) b)

min_zero : (i b : ℕ) → bit i 0 ≡ min 0 (bit i b)
min_zero i b = omega (arith, bit-zero i)

differ_digits : (a b : ℕ) → a < 2 → b < 2 → differ a b < 2
differ_digits zero b p q = q
differ_digits (suc a) zero p q = p
differ_digits (suc a) (suc b) p q = ground (arith, differ_digits a b)

pub bit-and : (i a b : ℕ) → bit i (bit_and a b) ≡ min (bit i a) (bit i b)
bit-and i a b =
    rw (bit_and-bitwise a b)
      (bit-digits (λ _. 0) min (λ x y. omega arith) min_zero i a a b (le_refl a))

pub bit-or : (i a b : ℕ) → bit i (bit_or a b) ≡ max (bit i a) (bit i b)
bit-or i a b =
    rw (bit_or-bitwise a b)
      (bit-digits (λ y. y) max (λ x y. omega arith) (λ j y. omega arith) i a a b (le_refl a))

pub bit-xor : (i a b : ℕ) → bit i (bit_xor a b) ≡ differ (bit i a) (bit i b)
bit-xor i a b = rw (bit_xor-bitwise a b) (
    bit-digits (λ y. y) differ (λ x y. differ_digits (x % 2) (y % 2) (omega arith) (omega arith))
      (λ j y. refl) i a a b (le_refl a))

-- `~n` in `w` bits.
abbrev pub bit_not : ℕ → ℕ → ℕ
bit_not w n = 2 ^ w - 1 - n

pub bit-not : (i w n : ℕ) → i < w → n < 2 ^ w → bit i (bit_not w n) ≡ 1 - bit i n
bit-not i zero n h lt = absurd (omega arith)
bit-not zero (suc w) n h lt = omega (arith, pow-suc 2 w, one-le-pow w 2 (omega arith))
bit-not (suc i) (suc w) n h lt =
    ap (bit i) halve ∙ bit-not i w (n / 2) (omega arith) (omega (arith, pow-suc 2 w))
  where
    halve : bit_not (suc w) n / 2 ≡ bit_not w (n / 2)
    halve = omega (arith, pow-suc 2 w, one-le-pow w 2 (omega arith))

pub bit-two_pow : (i k : ℕ) → bit i (2 ^ k) ≡ (if i == k then 1 else 0)
bit-two_pow zero zero = refl
bit-two_pow zero (suc k) = ground (arith, pow-suc 2 k)
bit-two_pow (suc i) zero = ground (arith, bit-zero i)
bit-two_pow (suc i) (suc k) = ap (bit i) halve ∙ bit-two_pow i k ∙ ground arith
  where
    halve : 2 ^ suc k / 2 ≡ 2 ^ k
    halve = omega (arith, pow-suc 2 k)

half-mod : (n m : ℕ) → 0 < m → n % (2 * m) / 2 ≡ n / 2 % m
half-mod n m h = grind arith

parity-mod : (n m : ℕ) → 0 < m → n % (2 * m) % 2 ≡ n % 2
parity-mod n m h = grind arith

-- Cutting off above digit `w` keeps the digits below.
pub bit-mod : (i w n : ℕ) → i < w → bit i (n % 2 ^ w) ≡ bit i n
bit-mod i zero n h = absurd (omega arith)
bit-mod zero (suc w) n h = rw two_pow_suc (parity-mod n (2 ^ w) (one-le-pow w 2 (omega arith)))
  where
    two_pow_suc : 2 ^ suc w ≡ 2 * 2 ^ w
    two_pow_suc = omega (arith, pow-suc 2 w)
bit-mod (suc i) (suc w) n h =
    rw (two_pow_suc, half-mod n (2 ^ w) (one-le-pow w 2 (omega arith)))
      (bit-mod i w (n / 2) (omega arith))
  where
    two_pow_suc : 2 ^ suc w ≡ 2 * 2 ^ w
    two_pow_suc = omega (arith, pow-suc 2 w)

-- Numbers with the same digits are equal.
digits_ext : (n a b : ℕ) → a ≤ n → b ≤ n → ((i : ℕ) → bit i a ≡ bit i b) → a ≡ b
digits_ext zero a b p q h = omega arith
digits_ext (suc n) a b p q h =
    omega (arith, h 0, digits_ext n (a / 2) (b / 2) (omega arith) (omega arith) (λ i. h (suc i)))

pub bit_ext : (a b : ℕ) → ((i : ℕ) → bit i a ≡ bit i b) → a ≡ b
bit_ext a b h = digits_ext (a + b) a b (omega arith) (omega arith) h

-- So are numbers below `2 ^ w` with the same `w` digits.
pub bit_ext-lt : (w a b : ℕ) → a < 2 ^ w → b < 2 ^ w → ((i : ℕ) → i < w → bit i a ≡ bit i b) → a ≡ b
bit_ext-lt zero a b p q h = omega arith
bit_ext-lt (suc w) a b p q h = omega (
  arith,
  h 0 (omega arith),
  bit_ext-lt w (a / 2) (b / 2) (omega (arith, pow-suc 2 w)) (omega (arith, pow-suc 2 w))
      (λ i l. h (suc i) (omega arith)),
)

-- `a & (1 << k)` is digit `k`, in its place.
pub bit_and_pow : (a k : ℕ) → bit_and a (2 ^ k) ≡ bit k a * 2 ^ k
bit_and_pow a k = bit_ext _ _ same
  where
    scaled : (d i : ℕ) → d < 2 → bit i (d * 2 ^ k) ≡ (if i == k then d else 0)
    scaled zero i h = ground (arith, bit-zero i)
    scaled (suc zero) i h = let e : 1 * 2 ^ k ≡ 2 ^ k = omega arith in rw e (bit-two_pow i k)
    scaled (suc (suc d)) i h = absurd (omega arith)

    same : (i : ℕ) → bit i (bit_and a (2 ^ k)) ≡ bit i (bit k a * 2 ^ k)
    same i =
        rw (bit-and, bit-two_pow, scaled (bit k a) i (bit-lt k a))
          (ground (arith, bit-lt i a, ap (λ (j : ℕ). bit j a)))

pub bit-above : (i k n : ℕ) → n < 2 ^ k → k ≤ i → bit i n ≡ 0
bit-above i zero n h le = let e : n ≡ 0 = omega arith in rw e (bit-zero i)
bit-above zero (suc k) n h le = absurd (omega arith)
bit-above (suc i) (suc k) n h le = bit-above i k (n / 2) (omega (arith, pow-suc 2 k)) (omega arith)

pub bit-ones : (i k : ℕ) → bit i (2 ^ k - 1) ≡ (if ltb i k then 1 else 0)
bit-ones i zero = ground (arith, bit-zero i)
bit-ones zero (suc k) = ground (arith, pow-suc 2 k, one-le-pow k 2)
bit-ones (suc i) (suc k) = ap (bit i) halve ∙ bit-ones i k ∙ ground arith
  where
    halve : (2 ^ suc k - 1) / 2 ≡ 2 ^ k - 1
    halve = omega (arith, pow-suc 2 k, one-le-pow k 2 (omega arith))

-- A mask of `k` ones is a remainder.
pub bit_and_mask : (k n : ℕ) → bit_and n (2 ^ k - 1) ≡ n % 2 ^ k
bit_and_mask k n = bit_ext _ _ same
  where
    below : n % 2 ^ k < 2 ^ k
    below = mod-lt n (one-le-pow k 2 (omega arith))

    same : (i : ℕ) → bit i (bit_and n (2 ^ k - 1)) ≡ bit i (n % 2 ^ k)
    same i =
        rw (bit-and, bit-ones)
          (ground (arith, bit-lt i n, bit-mod i k n, bit-above i k (n % 2 ^ k) below))

pub lt_of_digits : (k n : ℕ) → ((i : ℕ) → k ≤ i → bit i n ≡ 0) → n < 2 ^ k
lt_of_digits zero n h =
    let e : n ≡ 0 = bit_ext n 0 (λ i. h i (omega arith) ∙ sym (bit-zero i)) in omega arith
lt_of_digits (suc k) n h =
    omega (arith, pow-suc 2 k, lt_of_digits k (n / 2) (λ i l. h (suc i) (omega arith)))

pub differ_lem : (d e : ℕ) → d < 2 → e < 2 → differ d e ≡ (if d == e then 0 else 1)
differ_lem zero zero p q = refl
differ_lem zero (suc zero) p q = refl
differ_lem zero (suc (suc e)) p q = absurd (omega arith)
differ_lem (suc zero) zero p q = refl
differ_lem (suc zero) (suc zero) p q = refl
differ_lem (suc zero) (suc (suc e)) p q = absurd (omega arith)
differ_lem (suc (suc d)) e p q = absurd (omega arith)

pub bit_xor-lt : (k a b : ℕ) → a < 2 ^ k → b < 2 ^ k → bit_xor a b < 2 ^ k
bit_xor-lt k a b p q =
    lt_of_digits k (bit_xor a b) λ i l. rw (bit-xor, bit-above i k a p l, bit-above i k b q l) refl

pub bit_or-lt : (k a b : ℕ) → a < 2 ^ k → b < 2 ^ k → bit_or a b < 2 ^ k
bit_or-lt k a b p q =
    lt_of_digits k (bit_or a b) λ i l. rw (bit-or, bit-above i k a p l, bit-above i k b q l) refl

pub bit_and-lt : (k a b : ℕ) → b < 2 ^ k → bit_and a b < 2 ^ k
bit_and-lt k a b q =
    lt_of_digits k (bit_and a b) λ i l. rw (bit-and, bit-above i k b q l) (omega arith)

pub bit_and-lt_left : (k a b : ℕ) → a < 2 ^ k → bit_and a b < 2 ^ k
bit_and-lt_left k a b q =
    lt_of_digits k (bit_and a b) λ i l. rw (bit-and, bit-above i k a q l) (omega arith)

-- The first `n` numbers pass a test.
abbrev pub all_below : ℕ → (ℕ → Bool) → Bool
all_below zero p = true
all_below (suc n) p = p n && all_below n p

pub all_below-lt : (n : ℕ) (p : ℕ → Bool) (x : ℕ) → all_below n p ≡ true → x < n → p x ≡ true
all_below-lt zero p x h lt = absurd (omega arith)
all_below-lt (suc n) p x h lt = ground (arith, all_below-lt n p x)
