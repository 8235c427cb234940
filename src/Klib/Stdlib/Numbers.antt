-- ===== src/Klib/Stdlib/Numbers.antt =====
-- atoi.
use triathlon.Prelude.{
  ℕ, zero, suc, ◌+◌, ◌*◌, ◌^◌, ◌≤◌, ◌<◌, ◌≡◌, ◌≢◌, refl, ap, ◌∙◌, arith, ◌&&◌, leb, ◌==◌, List, [],
  ◌∷◌, some, length, true, false, ==_iff,
}
use triathlon.Prelude.Words.{u32, add_int, sub_int}
use triathlon.Prelude.Store.{Store}
use triathlon.Klib.Stdlib.{skip_spaces, read_digits, atoi}

-- The number that decimal digits write, the first one highest, after `x`.
abbrev pub value_after : ℕ → List ℕ → ℕ
value_after x [] = x
value_after x (d ∷ ds) = value_after (x * 10 + d) ds

-- The digits `ds` stand in memory at `p` as characters, and no digit follows them.
pub data Digits (m : Store) : ℕ → List ℕ → Type 0 where
  none_follow : {p : ℕ} → (leb 48 (m p) && leb (m p) 57) ≡ false → Digits m p []
  digit :
      {p d : ℕ} {ds : List ℕ} → d < 10 → m p ≡ 48 + d → Digits m (p + 1) ds → Digits m p (d ∷ ds)

value_after-le : (x : ℕ) (ds : List ℕ) → x ≤ value_after x ds
value_after-le x [] = omega arith
value_after-le x (d ∷ ds) = omega (arith, value_after-le (x * 10 + d) ds)

read_digits-value :
    (fuel p x : ℕ) (ds : List ℕ) (m : Store)
    → Digits m p ds
    → value_after x ds < 2 ^ 31
    → length ds < fuel
    → read_digits fuel p x m ≡ some (value_after x ds)
unfolding read_digits
read_digits-value zero p x ds m h small l = absurd (omega arith)
read_digits-value (suc fuel) p x [] m (none_follow e) small l = rw e refl
read_digits-value (suc fuel) p x (d ∷ ds) m (digit lt at rest) small l =
    let in_range : (leb 48 (m p) && leb (m p) 57) ≡ true = ground arith in
    let low : x * 10 + d ≤ value_after (x * 10 + d) ds = value_after-le (x * 10 + d) ds in
    let next : sub_int (add_int (u32 (x * 10)) (m p)) 48 ≡ x * 10 + d = omega arith in
    rw (in_range, next) (read_digits-value fuel (p + 1) (x * 10 + d) ds m rest small (omega arith))

-- `k` spaces at `p`, and something else behind them.
pub record Spaces (m : Store) (p k : ℕ) : Type 0 where
  pub blank : (i : ℕ) → i < k → m (p + i) ≡ 32
  pub behind : m (p + k) ≢ 32

skip_spaces_lem :
    (fuel p k : ℕ) (m : Store) → Spaces m p k → k < fuel → skip_spaces fuel p m ≡ some (p + k)
unfolding skip_spaces
skip_spaces_lem zero p k m h l = absurd (omega arith)
skip_spaces_lem (suc fuel) p zero m h l =
    let here : p + 0 ≡ p = omega arith in
    let off : (m p == 32) ≡ false = ground (arith, λ (e : m p ≡ 32). h.behind (ap m here ∙ e)) in
    rw (off, here) refl
skip_spaces_lem (suc fuel) p (suc k) m h l =
    let on : (m p == 32) ≡ true =
      (==_iff (m p) 32).1 (ap m (omega arith) ∙ h.blank 0 (omega arith)) in
    let rest : Spaces m (p + 1) k = record {
      blank = λ i e. ap m (omega arith) ∙ h.blank (suc i) (omega arith);
      behind = λ e. h.behind (ap m (omega arith) ∙ e);
    } in
    rw on (skip_spaces_lem fuel (p + 1) k m rest (omega arith) ∙ ap some (omega arith))

-- `atoi` skips the spaces and gives the number that the digits behind them write, if that is an
-- `int`. The fuel must exceed the spaces and the digits.
pub atoi-value :
    (fuel p k : ℕ) (ds : List ℕ) (m : Store)
    → Spaces m p k
    → Digits m (p + k) ds
    → value_after 0 ds < 2 ^ 31
    → k < fuel
    → length ds < fuel
    → atoi fuel p m ≡ some (value_after 0 ds)
unfolding atoi
atoi-value fuel p k ds m gap digits small l r =
    rw (skip_spaces_lem fuel p k m gap l, atoi)
      (read_digits-value fuel (p + k) 0 ds m digits small r)
