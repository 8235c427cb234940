-- ===== src/Klib/Stdio/Formats.antt =====
-- What printf puts out for a format.
use triathlon.Prelude.{
  ℕ, zero, suc, ◌+◌, ◌-◌, ◌^◌, ◌<◌, ◌≡◌, ◌≢◌, refl, sym, ap, ◌∙◌, arith, ◌==◌, List, [], ◌∷◌, ◌++◌,
  length, some, true,
}
use triathlon.Prelude.Words.{u8, u32}
use triathlon.Prelude.Store.{Store}
use triathlon.Klib.Bytes.{IsString}
use triathlon.Klib.Stdio.{Console, put, convert, round, printf_from, printf}
use triathlon.Klib.Stdio.Hexadecimal.{hex_characters, hex_digits}
use triathlon.Klib.Stdio.Decimal.{
  put_all, put_all-append, digits, characters, put_decimal_lem, put_decimal-negative, count-put_all,
}
use triathlon.Klib.Stdio.Conversions.{
  cells, IsUnknown, not_equal, convert-percent, convert-character, convert-decimal, convert-least,
  convert-hexadecimal, convert-unknown, convert-string,
}

-- The format at `p` with these arguments stands for the text; the last number bounds the rounds
-- and the lengths of the strings that it takes.
pub data Renders (m : Store) : ℕ → List ℕ → List ℕ → ℕ → Type 0 where
  over : {p : ℕ} {args : List ℕ} → m p ≡ 0 → Renders m p args [] 0
  plain :
      {p : ℕ} {args text : List ℕ} {k : ℕ}
      → m p ≢ 0
      → m p ≢ 37
      → Renders m (p + 1) args text k
      → Renders m p args (m p ∷ text) (suc k)
  percent :
      {p : ℕ} {args text : List ℕ} {k : ℕ}
      → m p ≡ 37
      → m (p + 1) ≡ 37
      → Renders m (p + 2) args text k
      → Renders m p args (37 ∷ text) (suc k)
  character :
      {p a : ℕ} {args text : List ℕ} {k : ℕ}
      → m p ≡ 37
      → m (p + 1) ≡ 99
      → Renders m (p + 2) args text k
      → Renders m p (a ∷ args) (u8 a ∷ text) (suc k)
  decimal :
      {p n : ℕ} {args text : List ℕ} {k : ℕ}
      → m p ≡ 37
      → m (p + 1) ≡ 100
      → n < 2 ^ 31
      → Renders m (p + 2) args text k
      → Renders m p (n ∷ args) (characters (digits 31 n) ++ text) (suc k)
  negative :
      {p n : ℕ} {args text : List ℕ} {k : ℕ}
      → m p ≡ 37
      → m (p + 1) ≡ 100
      → 0 < n
      → n < 2 ^ 31
      → Renders m (p + 2) args text k
      → Renders m p ((2 ^ 32 - n) ∷ args) ((45 ∷ characters (digits 31 n)) ++ text) (suc k)
  least :
      {p : ℕ} {args text : List ℕ} {k : ℕ}
      → m p ≡ b'%'
      → m (p + 1) ≡ b'd'
      → Renders m (p + 2) args text k
      → Renders m p (2 ^ 31 ∷ args) (b'-' ∷ b'(' ∷ text) (suc k)
  hexadecimal :
      {p n : ℕ} {args text : List ℕ} {k : ℕ}
      → m p ≡ b'%'
      → m (p + 1) ≡ b'x'
      → n < 2 ^ 32
      → Renders m (p + 2) args text k
      → Renders m p (n ∷ args) (hex_characters (hex_digits 31 n) ++ text) (suc k)
  unknown :
      {p : ℕ} {args text : List ℕ} {k : ℕ}
      → m p ≡ b'%'
      → IsUnknown (m (p + 1))
      → Renders m (p + 2) args text k
      → Renders m p args (b'%' ∷ m (p + 1) ∷ text) (suc k)
  string :
      {p a n : ℕ} {args text : List ℕ} {k : ℕ}
      → m p ≡ 37
      → m (p + 1) ≡ 115
      → IsString m a n
      → Renders m (p + 2) args text k
      → Renders m p (a ∷ args) (cells m a n ++ text) (suc (k + n))

-- One round of the loop.
next_round :
    (fuel p p' : ℕ) (args args' : List ℕ) (m : Store) (s s' : Console)
    → m p ≢ 0
    → round fuel p args m s ≡ some (p', (s', args'))
    → printf_from (suc fuel) p args m s ≡ printf_from fuel p' args' m s'
unfolding printf_from
next_round fuel p p' args args' m s s' live one = rw (not_equal (m p) 0 live, one, printf_from) refl

-- One conversion, whose text is `cs`, and then the rest.
conversion :
    (fuel p c : ℕ) (args args' cs text : List ℕ) (m : Store) (s : Console)
    → m p ≡ 37
    → m (p + 1) ≡ c
    → convert fuel c args m s ≡ some (put_all cs s, args')
    → printf_from fuel (p + 2) args' m (put_all cs s) ≡ some (put_all text (put_all cs s))
    → printf_from (suc fuel) p args m s ≡ some (put_all (cs ++ text) s)
unfolding round
conversion fuel p c args args' cs text m s at spec conv rest =
    let live : m p ≢ 0 = λ e. absurd (omega arith) in
    next_round fuel p (p + 2) args args' m s (put_all cs s) live (rw (at, spec, conv, round) refl)
    ∙ rest
    ∙ ap some (sym (put_all-append cs text s))

no_more :
    (fuel p : ℕ) (args : List ℕ) (m : Store) (s : Console)
    → m p ≡ 0
    → printf_from (suc fuel) p args m s ≡ some s
unfolding printf_from
no_more fuel p args m s e = let end : (m p == 0) ≡ true = ground arith in rw (end, printf_from) refl

plain_round :
    (fuel p : ℕ) (args : List ℕ) (m : Store) (s : Console)
    → m p ≢ 37
    → round fuel p args m s ≡ some (p + 1, (put (m p) s, args))
unfolding round
plain_round fuel p args m s h = rw (not_equal (m p) 37 h, round) refl

printf_from-Renders :
    (m : Store) (fuel p : ℕ) (args text : List ℕ) (k : ℕ) (s : Console)
    → Renders m p args text k
    → k < fuel
    → printf_from fuel p args m s ≡ some (put_all text s)
unfolding put_all
printf_from-Renders m zero p args text k s r l = absurd (omega arith)
printf_from-Renders m (suc fuel) p args _ _ s (over e) l = no_more fuel p args m s e
printf_from-Renders m (suc fuel) p args _ _ s (plain {text = text} {k = k} live other rest) l =
    next_round fuel p (p + 1) args args m s (put (m p) s) live (plain_round fuel p args m s other)
    ∙ printf_from-Renders m fuel (p + 1) args text k (put (m p) s) rest (omega arith)
printf_from-Renders m (suc fuel) p args _ _ s (percent {text = text} {k = k} at spec rest) l =
    conversion fuel p 37 args args (37 ∷ []) text m s at spec (convert-percent fuel args m s)
      (printf_from-Renders m fuel (p + 2) args text k _ rest (omega arith))
printf_from-Renders m (suc fuel) p _ _ _ s
      (character {a = a} {args = args} {text = text} {k = k} at spec rest) l =
    conversion fuel p 99 (a ∷ args) args (u8 a ∷ []) text m s at spec
      (convert-character fuel a args m s)
      (printf_from-Renders m fuel (p + 2) args text k _ rest (omega arith))
printf_from-Renders m (suc fuel) p _ _ _ s
      (decimal {n = n} {args = args} {text = text} {k = k} at spec small rest) l =
    conversion fuel p 100 (n ∷ args) args (characters (digits 31 n)) text m s at spec
      (convert-decimal fuel n args m s
        ∙ ap (λ (r : Console). some (r, args)) (put_decimal_lem n s small))
      (printf_from-Renders m fuel (p + 2) args text k _ rest (omega arith))
printf_from-Renders m (suc fuel) p _ _ _ s
      (negative {n = n} {args = args} {text = text} {k = k} at spec some_size small rest) l =
    conversion fuel p 100 ((2 ^ 32 - n) ∷ args) args (45 ∷ characters (digits 31 n)) text m s at
      spec
      (convert-decimal fuel (2 ^ 32 - n) args m s
        ∙ ap (λ (r : Console). some (r, args)) (put_decimal-negative n s some_size small))
      (printf_from-Renders m fuel (p + 2) args text k _ rest (omega arith))
printf_from-Renders m (suc fuel) p _ _ _ s (least {args = args} {text = text} {k = k} at spec rest)
      l =
    conversion fuel p 100 (2 ^ 31 ∷ args) args (b'-' ∷ b'(' ∷ []) text m s at spec
      (convert-least fuel args m s)
      (printf_from-Renders m fuel (p + 2) args text k _ rest (omega arith))
printf_from-Renders m (suc fuel) p _ _ _ s
      (hexadecimal {n = n} {args = args} {text = text} {k = k} at spec small rest) l =
    conversion fuel p 120 (n ∷ args) args (hex_characters (hex_digits 31 n)) text m s at spec
      (convert-hexadecimal fuel n args m s small)
      (printf_from-Renders m fuel (p + 2) args text k _ rest (omega arith))
printf_from-Renders m (suc fuel) p args _ _ s (unknown {text = text} {k = k} at other rest) l =
    conversion fuel p (m (p + 1)) args args (b'%' ∷ m (p + 1) ∷ []) text m s at refl
      (convert-unknown fuel (m (p + 1)) args m s other)
      (printf_from-Renders m fuel (p + 2) args text k _ rest (omega arith))
printf_from-Renders m (suc fuel) p _ _ _ s
      (string {a = a} {n = n} {args = args} {text = text} {k = k} at spec h rest) l =
    conversion fuel p 115 (a ∷ args) args (cells m a n) text m s at spec
      (convert-string fuel a n args m s h (omega arith))
      (printf_from-Renders m fuel (p + 2) args text k _ rest (omega arith))

-- `printf` returns, given fuel for its rounds and its strings, and has put out the text that its
-- format stands for, after what was there before; it returns the length of that text. In the text
-- `%c`, `%s`, `%d` and `%x` stand for their argument, a number by its digits with a minus before a
-- negative one, but -2147483648, whose negation is itself, by `-(`; `%%` stands for `%`, and `%`
-- before any other character for the two as they are. The format must have an argument for each
-- conversion, that of `%s` a string, and not end in a lone `%`.
pub printf-Renders :
    (fuel fmt : ℕ) (args text : List ℕ) (k : ℕ) (m : Store) (out : List ℕ)
    → Renders m fmt args text k
    → k < fuel
    → (printf fuel fmt args m out ≡ some (put_all text (record { out = out; count = 0 })))
      × ((put_all text (record { out = out; count = 0 })).count ≡ u32 (length text))
unfolding printf
printf-Renders fuel fmt args text k m out r l = (
  printf_from-Renders m fuel fmt args text k _ r l,
  omega (arith, count-put_all text (record { out = out; count = 0 }) (omega arith)),
)
