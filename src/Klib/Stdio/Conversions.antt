-- ===== src/Klib/Stdio/Conversions.antt =====
-- What each conversion of printf puts out.
use triathlon.Prelude.{
  ℕ, zero, suc, ◌+◌, ◌^◌, ◌<◌, ◌≡◌, ◌≢◌, refl, ap, ◌∙◌, arith, ◌==◌, List, [], ◌∷◌, some, false,
}
use triathlon.Prelude.Words.{u8}
use triathlon.Prelude.Store.{Store}
use triathlon.Klib.Bytes.{IsString}
use triathlon.Klib.Strings.Compares.{IsString-tail}
use triathlon.Klib.Stdio.{
  Console, put, put_string, put_argument, put_decimal, put_back, decimal_buffer, mod_int_10,
  div_int_10, convert,
}
use triathlon.Klib.Stdio.Hexadecimal.{hex_characters, hex_digits, put_hex_lem}
use triathlon.Klib.Stdio.Decimal.{put_all}

-- The `n` cells from `a` on.
pub cells : Store → ℕ → ℕ → List ℕ
cells m a zero = []
cells m a (suc n) = m a ∷ cells m (a + 1) n

-- A character behind `%` that is no conversion, and not the end of the format.
abbrev pub IsUnknown : ℕ → Type 0
IsUnknown c = (c ≢ 0) × (c ≢ b'%') × (c ≢ b'c') × (c ≢ b'd') × (c ≢ b's') × (c ≢ b'x')

pub not_equal : (x y : ℕ) → x ≢ y → (x == y) ≡ false
not_equal x y h = ground arith

pub put_string_lem :
    (fuel a n : ℕ) (m : Store) (s : Console)
    → IsString m a n
    → n < fuel
    → put_string fuel a m s ≡ some (put_all (cells m a n) s)
unfolding put_string put_all cells
put_string_lem zero a n m s h l = absurd (omega arith)
put_string_lem (suc fuel) a zero m s h l =
    let end : m a ≡ 0 = ap m (omega arith) ∙ h.ends in rw end refl
put_string_lem (suc fuel) a (suc n) m s h l =
    let live : (m a == 0) ≡ false =
      not_equal (m a) 0 (λ e. h.full 0 (omega arith) (ap m (omega arith) ∙ e)) in
    rw live (put_string_lem fuel (a + 1) n m (put (m a) s) (IsString-tail m a n h) (omega arith))

pub convert-percent :
    (fuel : ℕ) (args : List ℕ) (m : Store) (s : Console)
    → convert fuel 37 args m s ≡ some (put_all (37 ∷ []) s, args)
unfolding convert put_all
convert-percent fuel args m s = refl

pub convert-character :
    (fuel a : ℕ) (args : List ℕ) (m : Store) (s : Console)
    → convert fuel 99 (a ∷ args) m s ≡ some (put_all (u8 a ∷ []) s, args)
unfolding convert put_argument put_all
convert-character fuel a args m s = refl

pub convert-decimal :
    (fuel a : ℕ) (args : List ℕ) (m : Store) (s : Console)
    → convert fuel 100 (a ∷ args) m s ≡ some (put_decimal a s, args)
unfolding convert put_argument
convert-decimal fuel a args m s = refl

pub convert-least :
    (fuel : ℕ) (args : List ℕ) (m : Store) (s : Console)
    → convert fuel 100 (2 ^ 31 ∷ args) m s ≡ some (put_all (b'-' ∷ b'(' ∷ []) s, args)
unfolding convert put_argument put_decimal put_back decimal_buffer mod_int_10 div_int_10 put_all
convert-least fuel args m s = refl

pub convert-hexadecimal :
    (fuel n : ℕ) (args : List ℕ) (m : Store) (s : Console)
    → n < 2 ^ 32
    → convert fuel 120 (n ∷ args) m s ≡ some (put_all (hex_characters (hex_digits 31 n)) s, args)
unfolding convert put_argument
convert-hexadecimal fuel n args m s l = ap (λ (r : Console). some (r, args)) (put_hex_lem n s l)

pub convert-unknown :
    (fuel c : ℕ) (args : List ℕ) (m : Store) (s : Console)
    → IsUnknown c
    → convert fuel c args m s ≡ some (put_all (b'%' ∷ c ∷ []) s, args)
unfolding convert put_all
convert-unknown fuel c args m s (not_end, not_percent, not_c, not_d, not_s, not_x) = ground arith

pub convert-string :
    (fuel a n : ℕ) (args : List ℕ) (m : Store) (s : Console)
    → IsString m a n
    → n < fuel
    → convert fuel 115 (a ∷ args) m s ≡ some (put_all (cells m a n) s, args)
unfolding convert put_argument
convert-string fuel a n args m s h l = rw (put_string_lem fuel a n m s h l, put_argument) refl
