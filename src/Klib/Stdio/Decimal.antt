-- ===== src/Klib/Stdio/Decimal.antt =====
-- What `%d` puts out.
use triathlon.Prelude.{
  ℕ, zero, suc, ◌+◌, ◌-◌, ◌*◌, ◌/◌, ◌%◌, ◌^◌, ◌<◌, ◌≡◌, refl, sym, ap, ◌∙◌, arith, not, ◌&&◌, ltb,
  if◌then◌else◌, List, [], ◌∷◌, ◌++◌, map, length, Bool-cases, inl, inr, true, false,
}
use native.Mathlib.Nat.{pow-suc}
use triathlon.Prelude.Words.{u8, u32, add_int, sub_int, is_neg_int}
use triathlon.Klib.Stdlib.Numbers.{value_after}
use triathlon.Klib.Stdio.{
  Console, put, put_back, put_decimal, decimal_buffer, mod_int_10, div_int_10,
}

-- Characters put out one after the other.
unfoldable pub put_all : List ℕ → Console → Console
put_all [] s = s
put_all (c ∷ cs) s = put_all cs (put c s)

pub put_all-append :
    (xs ys : List ℕ) (s : Console) → put_all (xs ++ ys) s ≡ put_all ys (put_all xs s)
unfolding put_all
put_all-append [] ys s = refl
put_all-append (x ∷ xs) ys s = put_all-append xs ys (put x s)

-- The digits of a number below `10 ^ room`, the highest first and no zero before it.
pub digits : ℕ → ℕ → List ℕ
digits zero n = []
digits (suc room) n = (if ltb n 10 then [] else digits room (n / 10)) ++ ((n % 10) ∷ [])

pub characters : List ℕ → List ℕ
characters ds = map (λ d. 48 + d) ds

value_after-last :
    (x d : ℕ) (ds : List ℕ) → value_after x (ds ++ (d ∷ [])) ≡ value_after x ds * 10 + d
value_after-last x d [] = refl
value_after-last x d (e ∷ ds) = value_after-last (x * 10 + e) d ds

characters-last :
    (d : ℕ) (ds : List ℕ) → characters (ds ++ (d ∷ [])) ≡ characters ds ++ ((48 + d) ∷ [])
unfolding characters
characters-last d [] = refl
characters-last d (e ∷ ds) = ap (λ (r : List ℕ). (48 + e) ∷ r) (characters-last d ds)

-- Those digits write the number.
pub value_after-digits : (room n : ℕ) → n < 10 ^ room → value_after 0 (digits room n) ≡ n
unfolding digits
value_after-digits zero n h = omega arith
value_after-digits (suc room) n h = elim (Bool-cases (ltb n 10)) [
  | inl e ↦ rw e (ground arith)
  | inr e ↦
      rw (e, value_after-last 0 (n % 10) (digits room (n / 10)))
        (omega (arith, value_after-digits room (n / 10) (omega (arith, pow-suc 10 room))))
]

more :
    (room n : ℕ)
    → n < 2 ^ 31
    → n < 10 ^ suc room
    → ltb n 10 ≡ false
    → (ltb 0 (n / 10) && not (is_neg_int (n / 10)) && ltb 0 room) ≡ true
more zero n h k e = absurd (ground arith)
more (suc room) n h k e = ground arith

put_back_lem :
    (room n : ℕ) (s : Console)
    → n < 2 ^ 31
    → n < 10 ^ room
    → put_back (decimal_buffer room n) s ≡ put_all (characters (digits room n)) s
unfolding decimal_buffer put_back mod_int_10 div_int_10 digits characters put_all
put_back_lem zero n s h k = refl
put_back_lem (suc room) n s h k =
    let whole : is_neg_int n ≡ false = ground arith in
    let digit : u8 (add_int 48 (n % 10)) ≡ 48 + n % 10 = omega arith in
    elim (Bool-cases (ltb n 10)) [
      | inl e ↦ let over : ltb 0 (n / 10) ≡ false = ground arith in rw (whole, digit, over, e) refl
      | inr e ↦
          let goes : (ltb 0 (n / 10) && not (is_neg_int (n / 10)) && ltb 0 room) ≡ true =
            more room n h k e in
          rw (whole, digit, goes, e, characters-last (n % 10) (digits room (n / 10)))
            (ap (put (48 + n % 10))
                (put_back_lem room (n / 10) s (omega arith) (omega (arith, pow-suc 10 room)))
              ∙ sym (put_all-append (characters (digits room (n / 10))) ((48 + n % 10) ∷ []) s))
    ]

-- `%d` of a number that is not negative puts out the characters of its digits.
pub put_decimal_lem :
    (n : ℕ) (s : Console) → n < 2 ^ 31 → put_decimal n s ≡ put_all (characters (digits 31 n)) s
unfolding put_decimal
put_decimal_lem n s h =
    let whole : is_neg_int n ≡ false = ground arith in
    rw whole (put_back_lem 31 n s h (omega arith))

-- `%d` of a negative number puts out a minus and the digits of its absolute value.
pub put_decimal-negative :
    (n : ℕ) (s : Console)
    → 0 < n
    → n < 2 ^ 31
    → put_decimal (2 ^ 32 - n) s ≡ put_all (45 ∷ characters (digits 31 n)) s
unfolding put_decimal put_all
put_decimal-negative n s lo hi =
    let below : is_neg_int (2 ^ 32 - n) ≡ true = ground arith in
    let size : sub_int 0 (2 ^ 32 - n) ≡ n = omega arith in
    rw (below, size) (put_back_lem 31 n (put 45 s) hi (omega arith))

-- Each character adds one to the count.
pub count-put_all :
    (cs : List ℕ) (s : Console)
    → s.count < 2 ^ 32
    → (put_all cs s).count ≡ u32 (s.count + length cs)
unfolding put_all put
count-put_all [] s h = omega arith
count-put_all (c ∷ cs) s h = omega (arith, count-put_all cs (put c s) (omega arith))
