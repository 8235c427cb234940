-- ===== src/Klib/Strings/Copies.antt =====
-- What the copies of strings leave in memory.
use triathlon.Prelude.{
  ℕ, zero, suc, ◌+◌, ◌-◌, ◌^◌, ◌≤◌, ◌<◌, ◌≡◌, ◌≢◌, inl, inr, refl, sym, ap, ap₂, ◌∙◌, not, ◌&&◌,
  arith, ltb, ◌==◌, if◌then◌else◌, some, true, false, min, Bool-cases,
}
use triathlon.Prelude.Words.{u64}
use triathlon.Prelude.Store.{Store, update}
use triathlon.Klib.Bytes.{IsString, copied, copied_none, copied_next, copied_source, Apart}
use triathlon.Klib.Strings.{
  scan, strlen, strcpy_from, strcpy, strncpy_from, strncpy, append_at, strcat,
}

not_zero : (x : ℕ) → x ≢ 0 → (x == 0) ≡ false
not_zero x h = ground arith

is_zero : (x : ℕ) → x ≡ 0 → (x == 0) ≡ true
is_zero x h = ground arith

-- The scan of a string ends on its terminator, from any place within it.
scan_lem :
    (fuel s i n d : ℕ) (m : Store)
    → IsString m s n
    → i + d ≡ n
    → d < fuel
    → scan fuel (s + i) m ≡ some (s + n)
unfolding scan
scan_lem (suc fuel) s i n zero m h e l =
    let here : i ≡ n = omega arith in rw (here, is_zero _ h.ends) refl
scan_lem (suc fuel) s i n (suc d) m h e l = rw (not_zero _ (h.full i (omega arith))) (
    ap (λ p. scan fuel p m) (omega arith)
    ∙ scan_lem fuel s (i + 1) n d m h (omega arith) (omega arith))
scan_lem zero s i n d m h e l = absurd (omega arith)

pub scan-IsString :
    (fuel s n : ℕ) (m : Store) → IsString m s n → n < fuel → scan fuel s m ≡ some (s + n)
scan-IsString fuel s n m h l =
    ap (λ p. scan fuel p m) (omega arith) ∙ scan_lem fuel s 0 n n m h (omega arith) l

-- `strlen` counts the characters of a string, given fuel for each and for the terminator.
pub strlen-counts :
    (fuel s n : ℕ) (m : Store) → IsString m s n → n < fuel → strlen fuel s m ≡ some n
unfolding strlen
strlen-counts fuel s n m h l = rw (scan-IsString fuel s n m h l, strlen) (ap some (omega arith))

-- After `i` of the characters, `d` are to come.
strcpy_from_lem :
    (fuel i d dst src n : ℕ) (m : Store)
    → IsString m src n
    → Apart dst src (n + 1)
    → i + d ≡ n
    → d < fuel
    → strcpy_from fuel i dst src (copied m dst src i) ≡ some (copied m dst src (n + 1))
unfolding strcpy_from
strcpy_from_lem zero i d dst src n m h a e l = absurd (omega arith)
strcpy_from_lem (suc fuel) i zero dst src n m h a e l =
    let here : i ≡ n = omega arith in
    let last : m (src + n) ≡ 0 = h.ends in
    rw (here, copied_source m dst src (n + 1) n a (omega arith), is_zero _ last)
      (ap some (ap (update (copied m dst src n) (dst + n)) (sym last) ∙ copied_next m dst src n))
strcpy_from_lem (suc fuel) i (suc d) dst src n m h a e l =
    rw
      (
        copied_source m dst src (n + 1) i a (omega arith),
        not_zero _ (h.full i (omega arith)),
        copied_next m dst src i,
      )
      (strcpy_from_lem fuel (i + 1) d dst src n m h a (omega arith) (omega arith))

-- `strcpy` of a string of `n` characters returns, given fuel for each and for the terminator, and
-- has copied the string with its terminator, if source and destination share no cell.
pub strcpy-copies :
    (fuel dst src n : ℕ) (m : Store)
    → IsString m src n
    → Apart dst src (n + 1)
    → n < fuel
    → strcpy fuel dst src m ≡ some (copied m dst src (n + 1))
unfolding strcpy
strcpy-copies fuel dst src n m h a l =
    ap (strcpy_from fuel 0 dst src) (sym (copied_none m dst src))
    ∙ strcpy_from_lem fuel 0 n dst src n m h a (omega arith) l

-- The loop of `strncpy` stops after `last` characters, at the bound or at the terminator.
strncpy_from_lem :
    (fuel i d dst src bound last len : ℕ) (m : Store)
    → IsString m src len
    → Apart dst src (last + 1)
    → last ≡ min len bound
    → i + d ≡ last
    → d < fuel
    → strncpy_from fuel i dst src bound (copied m dst src i)
      ≡ some (update (copied m dst src last) (dst + last) 0)
unfolding strncpy_from
strncpy_from_lem zero i d dst src bound last len m h a stop e l = absurd (omega arith)
strncpy_from_lem (suc fuel) i zero dst src bound last len m h a stop e l =
    let here : i ≡ last = omega arith in
    let over : (ltb last bound && not (m (src + last) == 0)) ≡ false =
      elim (Bool-cases (ltb last bound)) [
        | inl lo ↦
            let at : last ≡ len = ground arith in
            rw (lo, is_zero (m (src + last)) (ap (λ k. m (src + k)) at ∙ h.ends)) refl
        | inr hi ↦ rw hi refl
      ] in
    rw (here, copied_source m dst src (last + 1) last a (omega arith), over) refl
strncpy_from_lem (suc fuel) i (suc d) dst src bound last len m h a stop e l =
    let below : ltb i bound ≡ true = ground arith in
    rw
      (
        copied_source m dst src (last + 1) i a (omega arith),
        below,
        not_zero _ (h.full i (omega arith)),
        copied_next m dst src i,
      )
      (strncpy_from_lem fuel (i + 1) d dst src bound last len m h a stop (omega arith)
        (omega arith))

-- `strncpy` of at least 1 copies up to `n - 1` characters of the string and ends them with a
-- terminator, inside the `n` cells, if source and destination share none of those; it pads with
-- nothing. The fuel must exceed the characters copied.
pub strncpy-truncates :
    (fuel dst src n len : ℕ) (m : Store)
    → IsString m src len
    → 1 ≤ n
    → n < 2 ^ 64
    → Apart dst src (min len (n - 1) + 1)
    → min len (n - 1) < fuel
    → strncpy fuel dst src n m
      ≡ some (update (copied m dst src (min len (n - 1))) (dst + min len (n - 1)) 0)
unfolding strncpy
strncpy-truncates fuel dst src n len m h lo hi a l =
    let bound : u64 (n + (2 ^ 64 - 1)) ≡ n - 1 = omega arith in
    rw bound (
      ap (strncpy_from fuel 0 dst src (n - 1)) (sym (copied_none m dst src))
      ∙ strncpy_from_lem fuel 0 (min len (n - 1)) dst src (n - 1) (min len (n - 1)) len m h a refl
          (omega arith) l)

-- `strncpy` with a size of 0 copies the whole string and its terminator, as `strcpy` does.
pub strncpy-zero :
    (fuel dst src len : ℕ) (m : Store)
    → IsString m src len
    → len < 2 ^ 64 - 1
    → Apart dst src (len + 1)
    → len < fuel
    → strncpy fuel dst src 0 m ≡ strcpy fuel dst src m
unfolding strncpy
strncpy-zero fuel dst src len m h hi a l =
    ap (strncpy_from fuel 0 dst src (2 ^ 64 - 1)) (sym (copied_none m dst src))
    ∙ strncpy_from_lem fuel 0 len dst src (2 ^ 64 - 1) len len m h a (omega arith) (omega arith) l
    ∙ ap some
        (ap (update (copied m dst src len) (dst + len)) (sym h.ends) ∙ copied_next m dst src len)
    ∙ sym (strcpy-copies fuel dst src len m h a l)

append_at_lem :
    (fuel i dst src : ℕ) (m : Store)
    → append_at fuel (dst + i) (src + i) m ≡ strcpy_from fuel i dst src m
unfolding append_at strcpy_from
append_at_lem zero i dst src m = refl
append_at_lem (suc fuel) i dst src m =
    let next : append_at fuel (dst + i + 1) (src + i + 1) (update m (dst + i) (m (src + i)))
        ≡ strcpy_from fuel (i + 1) dst src (update m (dst + i) (m (src + i))) =
      ap₂ (λ p q. append_at fuel p q (update m (dst + i) (m (src + i)))) (omega arith) (omega arith)
      ∙ append_at_lem fuel (i + 1) dst src (update m (dst + i) (m (src + i))) in
    ap (λ r. if m (src + i) == 0 then some (update m (dst + i) 0) else r) next

-- `strcat` copies the second string behind the first, over its terminator, if the second shares
-- no cell with where it goes. The fuel must exceed both lengths.
pub strcat-appends :
    (fuel dst src k n : ℕ) (m : Store)
    → IsString m dst k
    → IsString m src n
    → Apart (dst + k) src (n + 1)
    → k < fuel
    → n < fuel
    → strcat fuel dst src m ≡ some (copied m (dst + k) src (n + 1))
unfolding strcat strcpy_from strcpy
strcat-appends fuel dst src k n m h g a l r =
    rw (scan-IsString fuel dst k m h l, strcat)
      (ap₂ (λ p q. append_at fuel p q m) (omega arith) (omega arith)
        ∙ append_at_lem fuel 0 (dst + k) src m
        ∙ strcpy-copies fuel (dst + k) src n m g a r)
