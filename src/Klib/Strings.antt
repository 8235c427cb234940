-- ===== src/Klib/Strings.antt =====
-- The functions of string.c on terminated strings. A pointer is an index of the memory, and
-- `size_t` has 64 bits. `none` is a loop that has used up its fuel before it found a terminator.
use triathlon.Prelude.{
  ℕ, zero, suc, ◌+◌, ◌-◌, ◌^◌, ◌≡◌, Bool, not, ◌&&◌, Option, none, some, ◌==◌, ltb, if◌then◌else◌,
}
use triathlon.Prelude.Words.{u64, sub_int}
use triathlon.Prelude.Store.{Store, update}
pub mod Copies
pub mod Compares

-- `while (*p != '\0') p++`.
unfoldable pub scan : ℕ → ℕ → Store → Option ℕ
scan zero p m = none
scan (suc fuel) p m = let rest = scan fuel (p + 1) m in if m p == 0 then some p else rest

unfoldable pub strlen : ℕ → ℕ → Store → Option ℕ
strlen fuel s m = elim (scan fuel s m) [ none ↦ none | some p ↦ some (p - s) ]

-- The loop of `strcpy` from `i` on, and the terminator after it.
unfoldable pub strcpy_from : ℕ → ℕ → ℕ → ℕ → Store → Option Store
strcpy_from zero i dst src m = none
strcpy_from (suc fuel) i dst src m =
    let rest = strcpy_from fuel (i + 1) dst src (update m (dst + i) (m (src + i))) in
    if m (src + i) == 0 then some (update m (dst + i) 0) else rest

unfoldable pub strcpy : ℕ → ℕ → ℕ → Store → Option Store
strcpy fuel dst src m = strcpy_from fuel 0 dst src m

-- The loop of `strncpy`, whose bound `n-1` is computed once here.
unfoldable pub strncpy_from : ℕ → ℕ → ℕ → ℕ → ℕ → Store → Option Store
strncpy_from zero i dst src bound m = none
strncpy_from (suc fuel) i dst src bound m =
    let rest = strncpy_from fuel (i + 1) dst src bound (update m (dst + i) (m (src + i))) in
    if ltb i bound && not (m (src + i) == 0) then rest else some (update m (dst + i) 0)

-- `n-1` of a `size_t` wraps at 0.
unfoldable pub strncpy : ℕ → ℕ → ℕ → ℕ → Store → Option Store
strncpy fuel dst src n m = strncpy_from fuel 0 dst src (u64 (n + (2 ^ 64 - 1))) m

-- `while (*src != '\0') *ptr++ = *src++; *ptr = '\0'`.
unfoldable pub append_at : ℕ → ℕ → ℕ → Store → Option Store
append_at zero ptr src m = none
append_at (suc fuel) ptr src m =
    let rest = append_at fuel (ptr + 1) (src + 1) (update m ptr (m src)) in
    if m src == 0 then some (update m ptr 0) else rest

unfoldable pub strcat : ℕ → ℕ → ℕ → Store → Option Store
strcat fuel dst src m = elim (scan fuel dst m) [ none ↦ none | some p ↦ append_at fuel p src m ]

-- The result is an `int`, the difference of two unsigned characters.
unfoldable pub strcmp : ℕ → ℕ → ℕ → Store → Option ℕ
strcmp zero s1 s2 m = none
strcmp (suc fuel) s1 s2 m =
    let rest = strcmp fuel (s1 + 1) (s2 + 1) m in
    if not (m s1 == 0) && (m s1 == m s2) then rest else some (sub_int (m s1) (m s2))

-- `n` has wrapped to SIZE_MAX exactly when the loop has ended on it.
unfoldable pub strncmp : ℕ → ℕ → ℕ → Store → ℕ
strncmp s1 s2 zero m = 0
strncmp s1 s2 (suc n) m =
    let rest = strncmp (s1 + 1) (s2 + 1) n m in
    if not (m s1 == 0) && (m s1 == m s2) then rest else sub_int (m s1) (m s2)
