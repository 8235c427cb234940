-- ===== src/Klib/Stdio/Hexadecimal.antt =====
-- What `%x` puts out.
use triathlon.Prelude.{
  ℕ, zero, suc, ◌+◌, ◌-◌, ◌*◌, ◌/◌, ◌%◌, ◌^◌, ◌<◌, ◌≡◌, refl, sym, ap, ◌∙◌, arith, ◌&&◌, ltb,
  if◌then◌else◌, List, [], ◌∷◌, ◌++◌, Bool-cases, inl, inr, true, false,
}
use native.Mathlib.Nat.{pow-suc}
use triathlon.Klib.Stdio.{Console, put, put_back, put_hex, hex_digit, hex_buffer}
use triathlon.Klib.Stdio.Decimal.{put_all, put_all-append}

-- The hexadecimal digits of a number below `16 ^ room`, the highest first and no zero before it.
unfoldable pub hex_digits : ℕ → ℕ → List ℕ
hex_digits zero n = []
hex_digits (suc room) n = (if ltb n 16 then [] else hex_digits room (n / 16)) ++ ((n % 16) ∷ [])

-- The value that hexadecimal digits write behind `x`.
abbrev pub hex_value_after : ℕ → List ℕ → ℕ
hex_value_after x [] = x
hex_value_after x (d ∷ ds) = hex_value_after (x * 16 + d) ds

-- `0` to `9`, then `a` to `f`.
unfoldable pub hex_characters : List ℕ → List ℕ
hex_characters [] = []
hex_characters (d ∷ ds) = (if ltb d 10 then b'0' + d else b'a' + (d - 10)) ∷ hex_characters ds

hex_value_after-last :
    (x d : ℕ) (ds : List ℕ) → hex_value_after x (ds ++ (d ∷ [])) ≡ hex_value_after x ds * 16 + d
hex_value_after-last x d [] = refl
hex_value_after-last x d (e ∷ ds) = hex_value_after-last (x * 16 + e) d ds

-- Those digits write the number.
pub hex_value_after-digits :
    (room n : ℕ) → n < 16 ^ room → hex_value_after 0 (hex_digits room n) ≡ n
unfolding hex_digits
hex_value_after-digits zero n h = omega arith
hex_value_after-digits (suc room) n h = elim (Bool-cases (ltb n 16)) [
  | inl e ↦ rw e (ground arith)
  | inr e ↦
      rw (e, hex_value_after-last 0 (n % 16) (hex_digits room (n / 16)))
        (omega (arith, hex_value_after-digits room (n / 16) (omega (arith, pow-suc 16 room))))
]

hex_characters-last :
    (d : ℕ) (ds : List ℕ)
    → hex_characters (ds ++ (d ∷ []))
      ≡ hex_characters ds ++ ((if ltb d 10 then b'0' + d else b'a' + (d - 10)) ∷ [])
unfolding hex_characters
hex_characters-last d [] = refl
hex_characters-last d (e ∷ ds) =
    ap (λ (r : List ℕ). (if ltb e 10 then b'0' + e else b'a' + (e - 10)) ∷ r)
      (hex_characters-last d ds)

hex_digit_lem : (d : ℕ) → hex_digit d ≡ (if ltb d 10 then b'0' + d else b'a' + (d - 10))
unfolding hex_digit
hex_digit_lem d = ground arith

more : (room n : ℕ) → n < 16 ^ suc room → ltb n 16 ≡ false → (ltb 0 (n / 16) && ltb 0 room) ≡ true
more zero n h e = absurd (ground arith)
more (suc room) n h e = ground arith

put_back-hex :
    (room n : ℕ) (s : Console)
    → n < 16 ^ room
    → put_back (hex_buffer room n) s ≡ put_all (hex_characters (hex_digits room n)) s
unfolding hex_buffer put_back hex_digits hex_characters put_all
put_back-hex zero n s h = refl
put_back-hex (suc room) n s h = elim (Bool-cases (ltb n 16)) [
  | inl e ↦
      let over : ltb 0 (n / 16) ≡ false = ground arith in rw (over, e, hex_digit_lem (n % 16)) refl
  | inr e ↦
      let goes = more room n h e in
      rw (goes, e, hex_characters-last (n % 16) (hex_digits room (n / 16)), hex_digit_lem (n % 16))
        (ap (put (if ltb (n % 16) 10 then b'0' + n % 16 else b'a' + (n % 16 - 10)))
            (put_back-hex room (n / 16) s (omega (arith, pow-suc 16 room)))
          ∙ sym (put_all-append (hex_characters (hex_digits room (n / 16))) (_ ∷ []) s))
]

-- `%x` of an `unsigned int` puts out the characters of its hexadecimal digits.
pub put_hex_lem :
    (n : ℕ) (s : Console) → n < 2 ^ 32 → put_hex n s ≡ put_all (hex_characters (hex_digits 31 n)) s
unfolding put_hex
put_hex_lem n s h = put_back-hex 31 n s (omega arith)
