-- ===== src/Klib/Strings/Compares.antt =====
-- What strcmp and strncmp answer.
use triathlon.Prelude.{
  some_injective, ℕ, zero, suc, ◌+◌, ◌<◌, ◌≡◌, ◌≢◌, ◌↔◌, refl, sym, ap, ap₂, ◌∙◌, not, ◌&&◌, arith,
  ◌==◌, if◌then◌else◌, some, Bool-cases, inl, inr, true, false, min,
}
use triathlon.Prelude.Words.{sub_int}
use triathlon.Prelude.Store.{Store}
use triathlon.Klib.Bytes.{IsString, AreBytes}
use triathlon.Klib.Mem.Compares.{
  SameCells, SameCells-next, SameCells-tail, SameCells-head, no_difference,
}
use triathlon.Klib.Mem.{memcmp}
use triathlon.Klib.Strings.{strcmp, strncmp}

-- A string without its first character.
pub IsString-tail : (m : Store) (s n : ℕ) → IsString m s (suc n) → IsString m (s + 1) n
IsString-tail m s n h = record {
  ends = ap m (omega arith) ∙ h.ends;
  full = λ i l e. h.full (suc i) (omega arith) (ap m (omega arith) ∙ e);
}

empty_only : (b k : ℕ) (m : Store) → IsString m b k → m b ≡ 0 → 0 ≡ k
empty_only b zero m g e = refl
empty_only b (suc k) m g e = absurd (g.full 0 (omega arith) (ap m (omega arith) ∙ e))

-- The loop ends where the strings first differ, or on the terminators of both.
pub strcmp-first :
    (fuel a b d : ℕ) (m : Store)
    → ((i : ℕ) → i < d → m (a + i) ≢ 0)
    → SameCells m a b d
    → (m (a + d) ≡ m (b + d) → m (a + d) ≡ 0)
    → d < fuel
    → strcmp fuel a b m ≡ some (sub_int (m (a + d)) (m (b + d)))
unfolding strcmp
strcmp-first zero a b d m full same stop l = absurd (omega arith)
strcmp-first (suc fuel) a b zero m full same stop l =
    let za : m (a + 0) ≡ m a = ap m (omega arith) in
    let zb : m (b + 0) ≡ m b = ap m (omega arith) in ground (arith, stop)
strcmp-first (suc fuel) a b (suc d) m full same stop l =
    let head : m a ≡ m b = SameCells-head m a b d same in
    let go : (not (m a == 0) && (m a == m b)) ≡ true =
      let live : m a ≢ 0 = λ e. full 0 (omega arith) (ap m (omega arith) ∙ e) in ground arith in
    let na : m (a + 1 + d) ≡ m (a + suc d) = ap m (omega arith) in
    let nb : m (b + 1 + d) ≡ m (b + suc d) = ap m (omega arith) in
    rw go (
      strcmp-first fuel (a + 1) (b + 1) d m
        (λ i k e. full (suc i) (omega arith) (ap m (omega arith) ∙ e)) (SameCells-tail m a b d same)
        (λ e. na ∙ stop (sym na ∙ e ∙ nb)) (omega arith)
      ∙ ap₂ (λ x y. some (sub_int x y)) na nb)

-- `strcmp` gives 0 exactly for two strings with the same characters, of memory that holds bytes.
-- The fuel must exceed the length of the first.
pub strcmp_iff :
    (fuel a b n k : ℕ) (m : Store)
    → AreBytes m
    → IsString m a n
    → IsString m b k
    → n < fuel
    → (strcmp fuel a b m ≡ some 0) ↔ ((n ≡ k) × SameCells m a b n)
unfolding strcmp
strcmp_iff zero a b n k m bytes h g l = absurd (omega arith)
strcmp_iff (suc fuel) a b zero k m bytes h g l =
    let end : m a ≡ 0 = ap m (omega arith) ∙ h.ends in
    rw end (
      λ r.
          let eb : 0 ≡ m b = no_difference 0 (m b) (omega arith) (bytes b) (some_injective _ _ r) in
          (empty_only b k m g (sym eb), λ i e. absurd (omega arith)),
      λ p. let eb : m b ≡ 0 = ap m (omega (arith, p.0)) ∙ g.ends in rw eb refl,
    )
strcmp_iff (suc fuel) a b (suc n) zero m bytes h g l =
    let live : m a ≢ 0 = λ e. h.full 0 (omega arith) (ap m (omega arith) ∙ e) in
    let end : m b ≡ 0 = ap m (omega arith) ∙ g.ends in
    let off : (not (m a == 0) && (m a == m b)) ≡ false = ground arith in
    rw off (
      λ r.
          absurd
            (live (no_difference (m a) (m b) (bytes a) (bytes b) (some_injective _ _ r) ∙ end)),
      λ p. absurd (omega (arith, p.0)),
    )
strcmp_iff (suc fuel) a b (suc n) (suc k) m bytes h g l =
    let live : m a ≢ 0 = λ e. h.full 0 (omega arith) (ap m (omega arith) ∙ e) in
    let rest =
      strcmp_iff fuel (a + 1) (b + 1) n k m bytes (IsString-tail m a n h) (IsString-tail m b k g)
        (omega arith) in
    elim (Bool-cases (m a == m b)) [
      | inl e ↦
          let same : m a ≡ m b = ground arith in
          let on : (not (m a == 0) && (m a == m b)) ≡ true = ground arith in
          rw on (
            λ r. (omega (arith, (rest.0 r).0), SameCells-next m a b n same (rest.0 r).1),
            λ p. rest.1 (omega (arith, p.0), SameCells-tail m a b n p.1),
          )
      | inr e ↦
          let off : (not (m a == 0) && (m a == m b)) ≡ false = ground arith in
          rw off (
            λ r.
                let same : m a ≡ m b =
                  no_difference (m a) (m b) (bytes a) (bytes b) (some_injective _ _ r) in
                absurd (ground arith),
            λ p. absurd (ground (arith, SameCells-head m a b n p.1)),
          )
    ]

stop_or_go : (x y : ℕ) → x ≡ 0 → (if x == y then 0 else sub_int x y) ≡ sub_int x y
stop_or_go x y e = ground arith

-- `strncmp` is `memcmp` of no more cells than the first string has, its terminator counted.
pub strncmp-memcmp :
    (a b n len : ℕ) (m : Store)
    → IsString m a len
    → strncmp a b n m ≡ memcmp a b (min n (len + 1)) m
unfolding strncmp memcmp
strncmp-memcmp a b zero len m h =
    let none_left : min 0 (len + 1) ≡ 0 = omega arith in rw none_left refl
strncmp-memcmp a b (suc n) zero m h =
    let end : m a ≡ 0 = ap m (omega arith) ∙ h.ends in
    let off : (not (m a == 0) && (m a == m b)) ≡ false = ground arith in
    let one : min (suc n) (0 + 1) ≡ 1 = omega arith in
    rw (off, one) (sym (stop_or_go (m a) (m b) end))
strncmp-memcmp a b (suc n) (suc len) m h =
    let live : m a ≢ 0 = λ e. h.full 0 (omega arith) (ap m (omega arith) ∙ e) in
    let less : min (suc n) (suc len + 1) ≡ suc (min n (len + 1)) = omega arith in
    let goes : (not (m a == 0) && (m a == m b)) ≡ (m a == m b) = ground arith in
    rw (less, goes)
      (ap (λ r. if m a == m b then r else sub_int (m a) (m b))
        (strncmp-memcmp (a + 1) (b + 1) n len m (IsString-tail m a len h)))
