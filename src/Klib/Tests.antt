-- ===== src/Klib/Tests.antt =====
-- The theorems on klib at a concrete memory.
use triathlon.Prelude.{
  ℕ, zero, suc, ◌+◌, ◌%◌, ◌≤◌, ◌<◌, ◌≡◌, ◌≢◌, ◌↔◌, inr, refl, arith, List, [], ◌∷◌, ◌++◌, get_or,
  length, some,
}
use triathlon.Prelude.Words.{u8, u32}
use triathlon.Prelude.Store.{Store, update}
use triathlon.Klib.Bytes.{IsString, AreBytes, copied}
use triathlon.Klib.Mem.{memmove}
use triathlon.Klib.Mem.Copies.{memmove-copies}
use triathlon.Klib.Mem.Compares.{SameCells}
use triathlon.Klib.Strings.{strcpy, strncpy, strcmp}
use triathlon.Klib.Strings.Copies.{strcpy-copies, strncpy-truncates}
use triathlon.Klib.Strings.Compares.{strcmp_iff}
use triathlon.Klib.Stdlib.{Stdlib, malloc}
use triathlon.Klib.Stdlib.Numbers.{Digits, digit, none_follow, Spaces}
use triathlon.Klib.Stdlib.Heap.{malloc-malloc}
use triathlon.Klib.Stdio.{printf}
use triathlon.Klib.Stdio.Decimal.{put_all, digits, characters}
use triathlon.Klib.Stdio.Hexadecimal.{hex_characters, hex_digits}
use triathlon.Klib.Stdio.Conversions.{cells}
use triathlon.Klib.Stdio.Formats.{Renders, over, decimal, string, percent, plain, printf-Renders}

-- "Hi" at 0 and at 16, "  42" at 3, "%d=%s%%" at 8, zeros from 19 on.
abbrev memory : Store
memory i = u8 (
    get_or
      (72 ∷ 105 ∷ 0 ∷ 32 ∷ 32 ∷ 52 ∷ 50 ∷ 0 ∷ 37 ∷ 100 ∷ 61 ∷ 37 ∷ 115 ∷ 37 ∷ 37 ∷ 0 ∷ 72 ∷ 105 ∷ 0
        ∷ [])
      i 0)

memory-AreBytes : AreBytes memory
memory-AreBytes i = omega arith

hi-IsString : IsString memory 0 2
hi-IsString = record { ends = refl; full = full }
  where
    full : (i : ℕ) → i < 2 → memory (0 + i) ≢ 0
    full zero l e = absurd (omega arith)
    full (suc zero) l e = absurd (omega arith)
    full (suc (suc i)) l e = absurd (omega arith)

again-IsString : IsString memory 16 2
again-IsString = record { ends = refl; full = full }
  where
    full : (i : ℕ) → i < 2 → memory (16 + i) ≢ 0
    full zero l e = absurd (omega arith)
    full (suc zero) l e = absurd (omega arith)
    full (suc (suc i)) l e = absurd (omega arith)

memmove-copies_example : memmove 1 0 3 memory 2 ≡ 105
memmove-copies_example = memmove-copies 1 0 3 2 memory

strcpy-copies_example : strcpy 3 30 0 memory ≡ some (copied memory 30 0 3)
strcpy-copies_example = strcpy-copies 3 30 0 2 memory hi-IsString (inr (omega arith)) (omega arith)

strncpy-truncates_example : strncpy 3 30 0 2 memory ≡ some (update (copied memory 30 0 1) 31 0)
strncpy-truncates_example =
    strncpy-truncates 3 30 0 2 2 memory hi-IsString (omega arith) (omega arith) (inr (omega arith))
      (omega arith)

strcmp_iff_example : (strcmp 3 0 16 memory ≡ some 0) ↔ ((◌≡◌ {A = ℕ} 2 2) × SameCells memory 0 16 2)
strcmp_iff_example =
    strcmp_iff 3 0 16 2 2 memory memory-AreBytes hi-IsString again-IsString (omega arith)

-- Two seeds that differ by 2 ^ 31.
abbrev seeded : Stdlib
seeded = record { next = 1; start_addr = 0 }

malloc-malloc_example :
    let (first, g') = malloc 0x80000004 5 seeded in
    let second = (malloc 0x80000004 9 g').0 in
    (0x80000004 ≤ first)
    × (first % 8 ≡ 0)
    × (second % 8 ≡ 0)
    × (first + 5 ≤ second)
    × (second < first + 5 + 8)
malloc-malloc_example = malloc-malloc 0x80000004 5 9 seeded refl (omega arith) (omega arith)

gap-Spaces : Spaces memory 3 2
gap-Spaces = record { blank = blank; behind = λ e. absurd (omega arith) }
  where
    blank : (i : ℕ) → i < 2 → memory (3 + i) ≡ 32
    blank zero l = refl
    blank (suc zero) l = refl
    blank (suc (suc i)) l = absurd (omega arith)

forty_two : Digits memory (3 + 2) (4 ∷ 2 ∷ [])
forty_two = digit (omega arith) refl (digit (omega arith) refl (none_follow refl))

-- What "%d=%s%%" stands for with 42 and "Hi".
abbrev text : List ℕ
text = characters (digits 31 42) ++ (61 ∷ (cells memory 0 2 ++ (37 ∷ [])))

text-Renders : Renders memory 8 (42 ∷ 0 ∷ []) text 6
text-Renders = decimal refl refl (omega arith) (
    plain (λ e. absurd (omega arith)) (λ e. absurd (omega arith))
      (string refl refl hi-IsString (percent refl refl (over refl))))

printf-Renders_example :
    (printf 7 8 (42 ∷ 0 ∷ []) memory [] ≡ some (put_all text (record { out = []; count = 0 })))
    × ((put_all text (record { out = []; count = 0 })).count ≡ u32 (length text))
printf-Renders_example =
    printf-Renders 7 8 (42 ∷ 0 ∷ []) text 6 memory [] text-Renders (omega arith)

-- "beef".
beef : hex_characters (hex_digits 31 0xBEEF) ≡ b'b' ∷ b'e' ∷ b'e' ∷ b'f' ∷ []
unfolding hex_characters hex_digits
beef = refl
