-- ===== src/Klib/Stdio.antt =====
-- printf and sprintf of stdio.c. The variable arguments are a list of machine words; a conversion
-- without an argument, which C leaves undefined, is `none`, and so is a loop out of fuel.
use triathlon.Prelude.{
  ℕ, zero, suc, ◌+◌, ◌-◌, ◌/◌, ◌%◌, ◌^◌, not, ◌&&◌, Option, none, some, true, false, List, [], ◌∷◌,
  ◌==◌, ltb, if◌then◌else◌,
}
use triathlon.Prelude.Words.{u8, u32, add_int, sub_int, is_neg_int}
use triathlon.Prelude.Store.{Store, update}
pub mod Decimal
pub mod Hexadecimal
pub mod Conversions
pub mod Formats

-- What `putch` has put out, the latest first, and `count`.
pub record Console : Type 0 where
  pub out : List ℕ
  pub count : ℕ

-- `putch(c); count++`.
unfoldable pub put : ℕ → Console → Console
put c s = record { out = u8 c ∷ s.out; count = add_int s.count 1 }

-- `num % 10` and `num / 10` of an `int`, which round towards 0.
unfoldable pub mod_int_10 : ℕ → ℕ
mod_int_10 x = if is_neg_int x then sub_int 0 ((2 ^ 32 - x) % 10) else x % 10

unfoldable pub div_int_10 : ℕ → ℕ
div_int_10 x = if is_neg_int x then sub_int 0 ((2 ^ 32 - x) / 10) else x / 10

-- The loop that fills `buffer`, the lowest digit first, while `room` places are left.
unfoldable pub decimal_buffer : ℕ → ℕ → List ℕ
decimal_buffer zero num = []
decimal_buffer (suc room) num =
    let next = div_int_10 num in
    let rest = decimal_buffer room next in
    u8 (add_int 48 (mod_int_10 num))
    ∷ (if ltb 0 next && not (is_neg_int next) && ltb 0 room then rest else [])

-- "0123456789abcdef".
unfoldable pub hex_digit : ℕ → ℕ
hex_digit d = if ltb d 10 then 48 + d else 87 + d

unfoldable pub hex_buffer : ℕ → ℕ → List ℕ
hex_buffer zero num = []
hex_buffer (suc room) num =
    let rest = hex_buffer room (num / 16) in
    hex_digit (num % 16) ∷ (if ltb 0 (num / 16) && ltb 0 room then rest else [])

-- `while (len--) { putch(buffer[len]); count++; }`.
unfoldable pub put_back : List ℕ → Console → Console
put_back [] s = s
put_back (c ∷ cs) s = put c (put_back cs s)

unfoldable pub put_string : ℕ → ℕ → Store → Console → Option Console
put_string zero str m s = none
put_string (suc fuel) str m s =
    let rest = put_string fuel (str + 1) m (put (m str) s) in if m str == 0 then some s else rest

unfoldable pub put_decimal : ℕ → Console → Console
put_decimal num s =
    if is_neg_int num
    then put_back (decimal_buffer 31 (sub_int 0 num)) (put 45 s)
    else put_back (decimal_buffer 31 num) s

unfoldable pub put_hex : ℕ → Console → Console
put_hex num s = put_back (hex_buffer 31 num) s

-- A conversion that takes an argument.
unfoldable pub put_argument : ℕ → ℕ → List ℕ → Store → Console → Option (Console × List ℕ)
put_argument fuel c [] m s = none
put_argument fuel c (a ∷ args) m s =
    if c == 115
    then elim (put_string fuel a m s) [ none ↦ none | some s' ↦ some (s', args) ]
    else some
        (if c == 100 then put_decimal a s else if c == 120 then put_hex a s else put (u8 a) s, args)

-- The `switch` on the character behind the `%`.
unfoldable pub convert : ℕ → ℕ → List ℕ → Store → Console → Option (Console × List ℕ)
convert fuel c args m s =
    if c == 115
    then put_argument fuel c args m s
    else if c == 100
    then put_argument fuel c args m s
    else if c == 120
    then put_argument fuel c args m s
    else if c == 99
    then put_argument fuel c args m s
    else some (if c == 37 then put 37 s else put c (put 37 s), args)

-- One round of the loop: the new `fmt` and what was put out.
unfoldable pub round : ℕ → ℕ → List ℕ → Store → Console → Option (ℕ × (Console × List ℕ))
round fuel fmt args m s =
    if m fmt == 37
    then elim (convert fuel (m (fmt + 1)) args m s) [ none ↦ none | some r ↦ some (fmt + 2, r) ]
    else some (fmt + 1, (put (m fmt) s, args))

unfoldable pub printf_from : ℕ → ℕ → List ℕ → Store → Console → Option Console
printf_from zero fmt args m s = none
printf_from (suc fuel) fmt args m s = elim (m fmt == 0) [
  | true ↦ some s
  | false ↦ elim (round fuel fmt args m s) [
    | none ↦ none
    | some (fmt', (s', args')) ↦ printf_from fuel fmt' args' m s'
  ]
]

-- `printf`: what has been put out before, and the count from 0 on, which is the result.
unfoldable pub printf : ℕ → ℕ → List ℕ → Store → List ℕ → Option Console
printf fuel fmt args m out = printf_from fuel fmt args m (record { out = out; count = 0 })
