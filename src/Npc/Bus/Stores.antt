-- ===== src/Npc/Bus/Stores.antt =====
-- Stores of memory_models.h that hit memory, byte by byte.
use triathlon.Prelude.{
  ℕ, zero, suc, ◌+◌, ◌-◌, ◌*◌, ◌/◌, ◌%◌, ◌^◌, ◌<◌, ◌≤◌, true, false, ◌&&◌, ◌==◌, ltb, leb,
  if◌then◌else◌, some, ◌≡◌, refl, sym, ap, subst, ◌∙◌, arith, inl, inr, Bool-cases, ◌⊎◌, le_or_lt,
}
use triathlon.Prelude.Words.{u8, u16, u32}
use triathlon.Prelude.Bits.{bit_and_mask}
use triathlon.Prelude.Store.{Store, update, update_self, update_ne}
use triathlon.Prelude.Fields.{field, put_field, field-other, field-inside, put_field-all, field-mod}
use triathlon.Npc.State.{UnifiedMem, Watch, in_pmem, in_bootrom, pmem_base}
use triathlon.Npc.Phys.{read_phys_byte, merge}
use triathlon.Npc.Phys.Words.{aligned_lem, shift_of_lem, merge-put}
use triathlon.Npc.Phys.Bytes.{IsWords, byte_at, read-pmem}
use triathlon.Npc.Bus.{
  is_clint_word, access_touches_bootrom, touches_bootrom, watched, write_pmem_word, write_aligned,
  write_word, read_word_common, read_word, replace, write_byte, write_half, write_store,
}

-- The bytes of a word after `n` of them, from the place of `k` on, are assigned.
byte_at-update :
    (s : Store) (k n j v : ℕ)
    → k % 4 + n ≤ 4
    → s (k / 4) < 2 ^ 32
    → v < 2 ^ (n * 8)
    → byte_at (update s (k / 4) (put_field 32 (k % 4 * 8) (n * 8) (s (k / 4)) v)) j
      ≡ (if leb k j && ltb j (k + n) then field ((j - k) * 8) 8 v else byte_at s j)
byte_at-update s k n j v h l lv = elim (Bool-cases (j / 4 == k / 4)) [
  | inr other ↦
      let w = put_field 32 (k % 4 * 8) (n * 8) (s (k / 4)) v in
      let out : (leb k j && ltb j (k + n)) ≡ false = ground arith in
      rw (update_ne s (k / 4) w (j / 4) (ground arith), out) refl
  | inl same ↦
      let e : j / 4 ≡ k / 4 = ground arith in
      let x = s (k / 4) in
      let w = put_field 32 (k % 4 * 8) (n * 8) x v in
      elim (Bool-cases (leb k j && ltb j (k + n))) [
        | inl inside ↦
            let f : j % 4 * 8 - k % 4 * 8 ≡ (j - k) * 8 = ground arith in
            rw (inside, e, update_self s (k / 4) w, sym f)
              (field-inside 32 (k % 4 * 8) (n * 8) x v (j % 4 * 8) 8 (omega arith) l lv
                (ground arith) (ground arith))
        | inr outside ↦
            rw (outside, e, update_self s (k / 4) w)
              (field-other 32 (k % 4 * 8) (n * 8) x v (j % 4 * 8) 8 (omega arith) l lv
                (beside j k n e outside))
      ]
]
  where
    beside :
        (j k n : ℕ)
        → j / 4 ≡ k / 4
        → (leb k j && ltb j (k + n)) ≡ false
        → (j % 4 * 8 + 8 ≤ k % 4 * 8) ⊎ (k % 4 * 8 + n * 8 ≤ j % 4 * 8)
    beside j k n e out = elim (le_or_lt j k) [
      | inl le ↦ inr (ground arith)
      | inr lt ↦ inl (omega arith)
    ]

-- The memory after `n` bytes of `v` at `a` are assigned, seen byte by byte.
unfoldable pub Assigned : ℕ → ℕ → ℕ → UnifiedMem → UnifiedMem → Type 0
Assigned n a v m m' =
    (x : ℕ)
    → read_phys_byte x m'
      ≡ (if leb a x && ltb x (a + n) then some (field ((x - a) * 8) 8 v) else read_phys_byte x m)

-- The memory with other words, and the record of the watch.
abbrev with_words : Store → Watch → UnifiedMem → UnifiedMem
with_words s w m = record m { watch = w; pmem_words = s }

with_words-outside :
    (x : ℕ) (s : Store) (w : Watch) (m : UnifiedMem)
    → in_pmem x ≡ false
    → read_phys_byte x (with_words s w m) ≡ read_phys_byte x m
unfolding read_phys_byte
with_words-outside x s w m h = rw h refl

assigned :
    (a n v : ℕ) (w : Watch) (m : UnifiedMem)
    → IsWords m
    → in_pmem a ≡ true
    → a % 4 + n ≤ 4
    → v < 2 ^ (n * 8)
    → (k : ℕ) → k ≡ a - pmem_base
    → Assigned n a v m (
        with_words
          (update m.pmem_words (k / 4) (put_field 32 (k % 4 * 8) (n * 8) (m.pmem_words (k / 4)) v))
          w
          m)
unfolding Assigned IsWords
assigned a n v w m words h l lv k e x =
    let s =
      update m.pmem_words (k / 4) (put_field 32 (k % 4 * 8) (n * 8) (m.pmem_words (k / 4)) v) in
    elim (Bool-cases (in_pmem x)) [
      | inl inside ↦
          let j = x - pmem_base in
          let same : (leb k j && ltb j (k + n)) ≡ (leb a x && ltb x (a + n)) = ground arith in
          let fits : k % 4 + n ≤ 4 = ground arith in
          rw
            (
              read-pmem x (with_words s w m) inside,
              read-pmem x m inside,
              byte_at-update m.pmem_words k n j v fits (words (k / 4)) lv,
              same,
            )
            (ground (arith, ap (λ i. field (i * 8) 8 v)))
      | inr outside ↦
          let out : (leb a x && ltb x (a + n)) ≡ false = ground arith in
          rw (out, with_words-outside x s w m outside) refl
    ]

read_word-pmem :
    (b : ℕ) (m : UnifiedMem)
    → in_pmem b ≡ true
    → b % 4 ≡ 0
    → read_word b m ≡ (m.pmem_words ((b - pmem_base) / 4), m)
unfolding read_word read_word_common
read_word-pmem b m h d =
    let e = aligned_lem b (ground arith) in
    let f : b / 4 * 4 ≡ b = omega arith in rw (e, f) (ground arith)

write_word-pmem :
    (b v : ℕ) (m : UnifiedMem)
    → in_pmem b ≡ true
    → b % 4 ≡ 0
    → write_word b v m
      ≡ with_words (update m.pmem_words ((b - pmem_base) / 4) v) (watched b v m.watch) m
unfolding write_word write_aligned write_pmem_word is_clint_word
write_word-pmem b v m h d =
    let e = aligned_lem b (ground arith) in
    let f : b / 4 * 4 ≡ b = omega arith in rw (e, f) (ground arith)

replace-Assigned :
    (n a v : ℕ) (m : UnifiedMem)
    → IsWords m
    → in_pmem a ≡ true
    → a % 4 + n ≤ 4
    → v < 2 ^ (n * 8)
    → Assigned n a v m (replace (2 ^ (n * 8) - 1) a v m)
unfolding replace IsWords
replace-Assigned n a v m words h l lv =
    let k = a - pmem_base in
    let b = a / 4 * 4 in
    let inside : in_pmem b ≡ true = ground arith in
    let index : (b - pmem_base) / 4 ≡ k / 4 = ground arith in
    let lane : a % 4 ≡ k % 4 = ground arith in
    let put = merge-put (m.pmem_words (k / 4)) (n * 8) (k % 4 * 8) v (ground arith) lv in
    rw
      (
        aligned_lem a (ground arith),
        read_word-pmem b m inside (omega arith),
        shift_of_lem a,
        index,
        lane,
        put,
        write_word-pmem b _ m inside (omega arith),
        index,
      )
      (assigned a n v (watched b _ m.watch) m words h l lv k refl)

word-Assigned :
    (a v : ℕ) (m : UnifiedMem)
    → IsWords m
    → in_pmem a ≡ true
    → a % 4 ≡ 0
    → v < 2 ^ 32
    → Assigned 4 a v m (write_word a v m)
unfolding IsWords
word-Assigned a v m words h d lv =
    let k = a - pmem_base in
    let whole = put_field-all 32 (m.pmem_words (k / 4)) v (words (k / 4)) lv in
    let lane : k % 4 ≡ 0 = ground arith in
    let w = watched a v m.watch in
    rw (write_word-pmem a v m h d) (
      subst (λ x. Assigned 4 a v m (with_words (update m.pmem_words (k / 4) x) w m)) (rw lane whole)
        (assigned a 4 v w m words h (omega arith) lv k refl))

-- Only the low bytes of the value count.
Assigned-mod :
    (n a v : ℕ) (m m' : UnifiedMem) → Assigned n a (v % 2 ^ (n * 8)) m m' → Assigned n a v m m'
unfolding Assigned
Assigned-mod n a v m m' h x = h x ∙ ground (arith, same)
  where
    same : x - a < n → field ((x - a) * 8) 8 (v % 2 ^ (n * 8)) ≡ field ((x - a) * 8) 8 v
    same lt = field-mod ((x - a) * 8) 8 (n * 8) v (omega arith)

-- The bytes that operation `op` of the store unit stores.
abbrev size_of : ℕ → ℕ
size_of op = if op == 7 then 1 else if op == 8 then 2 else 4

touches-pmem : (n i a : ℕ) → pmem_base ≤ a → a + i + n ≤ 2 ^ 32 → touches_bootrom n i a ≡ false
unfolding touches_bootrom
touches-pmem zero i a h l = refl
touches-pmem (suc n) i a h l =
    let e : in_bootrom (u32 (a + i)) ≡ false = ground arith in
    rw e (touches-pmem n (i + 1) a h (omega arith))

write_byte-pmem :
    (a v : ℕ) (m : UnifiedMem) → in_pmem a ≡ true → write_byte a v m ≡ replace 0xff a v m
unfolding write_byte
write_byte-pmem a v m h = ground arith

write_half-pmem :
    (a v : ℕ) (m : UnifiedMem)
    → in_pmem a ≡ true
    → in_pmem (a + 1) ≡ true
    → write_half a v m ≡ replace 0xffff a v m
unfolding write_half
write_half-pmem a v m h h' = let e : u32 (a + 1) ≡ a + 1 = ground arith in rw e (ground arith)

-- A store of the store unit to an aligned address in memory writes exactly the bytes of its size,
-- the lowest first, and keeps every other byte.
pub write_store-Assigned :
    (a value op : ℕ) (m : UnifiedMem)
    → IsWords m
    → in_pmem a ≡ true
    → (op ≡ 7) ⊎ ((op ≡ 8) ⊎ (op ≡ 9))
    → a % size_of op ≡ 0
    → value < 2 ^ 32
    → Assigned (size_of op) a value m (write_store a value op m)
unfolding write_store access_touches_bootrom
write_store-Assigned a value op m words h (inl byte) d l =
    let low : u8 (value % 2 ^ 8) ≡ value % 2 ^ 8 = omega arith in
    rw
      (
        byte,
        touches-pmem 1 0 a (ground arith) (ground arith),
        bit_and_mask 8 value,
        low,
        write_byte-pmem a (value % 2 ^ 8) m h,
      )
      (Assigned-mod 1 a value m _
        (replace-Assigned 1 a (value % 2 ^ 8) m words h (omega arith) (omega arith)))
write_store-Assigned a value op m words h (inr (inl half)) d l =
    let even : a % 2 ≡ 0 = ground arith in
    let low : u16 (value % 2 ^ 16) ≡ value % 2 ^ 16 = omega arith in
    rw
      (
        half,
        touches-pmem 2 0 a (ground arith) (ground arith),
        bit_and_mask 16 value,
        low,
        write_half-pmem a (value % 2 ^ 16) m h (ground arith),
      )
      (Assigned-mod 2 a value m _
        (replace-Assigned 2 a (value % 2 ^ 16) m words h (omega arith) (omega arith)))
write_store-Assigned a value op m words h (inr (inr word)) d l =
    let whole : a % 4 ≡ 0 = ground arith in
    rw (word, touches-pmem 4 0 a (ground arith) (ground arith))
      (word-Assigned a value m words h whole l)

-- What is shifted out of the word is lost.
crossing : (cur v : ℕ) → merge cur 0xffff 24 v ≡ merge cur 0xff 24 (v % 2 ^ 8)
unfolding merge
crossing cur v =
    let e : v * 2 ^ 24 % 2 ^ 32 ≡ v % 2 ^ 8 * 2 ^ 24 % 2 ^ 32 = omega arith in rw e refl

-- A half word stored across the end of a word loses its upper byte: of a half word at an address that
-- leaves 3 modulo 4, with both its bytes in memory, only the lower byte is stored.
pub write_half-crossing :
    (a value : ℕ) (m : UnifiedMem)
    → IsWords m
    → in_pmem a ≡ true
    → in_pmem (a + 1) ≡ true
    → a % 4 ≡ 3
    → value < 2 ^ 16
    → Assigned 1 a value m (write_half a value m)
unfolding replace
write_half-crossing a value m words h h' d l =
    rw (write_half-pmem a value m h h', same)
      (Assigned-mod 1 a value m _
        (replace-Assigned 1 a (value % 2 ^ 8) m words h (omega arith) (omega arith)))
  where
    same : replace 0xffff a value m ≡ replace 0xff a (value % 2 ^ 8) m
    same = let shift : a % 4 * 8 ≡ 24 = omega arith in rw (shift_of_lem a, shift, crossing) refl
