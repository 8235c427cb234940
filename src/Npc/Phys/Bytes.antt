-- ===== src/Npc/Phys/Bytes.antt =====
-- Physical memory of memory_models.h as an array of bytes.
use Prim.Native.Nat.{bit_and}
use triathlon.Prelude.{
  ℕ, zero, suc, ◌+◌, ◌-◌, ◌*◌, ◌/◌, ◌%◌, ◌^◌, ◌<◌, ◌≤◌, ◌==◌, ltb, leb, ◌&&◌, true, false,
  if◌then◌else◌, some, ◌≡◌, ◌≢◌, refl, sym, ap, ◌∙◌, arith, ◌⊎◌, inl, inr, le_or_lt, Bool-cases,
}
use triathlon.Prelude.Words.{u64, ◌>>◌}
use triathlon.Prelude.Bits.{bit_and_mask}
use triathlon.Prelude.Store.{Store, update, update_self, update_ne}
use triathlon.Prelude.Fields.{field, put_field, put_field-lt, field-put_field, field-other}
use triathlon.Npc.State.{UnifiedMem, in_pmem, pmem_base, pmem_size}
use triathlon.Npc.Phys.{read_phys_byte, write_phys_byte, write_bytes}
use triathlon.Npc.Phys.Words.{shift_of_lem, word_index_lem, merge-put}

-- Every cell of the memory is a word of 32 bits.
unfoldable pub IsWords : UnifiedMem → Type 0
IsWords m = (i : ℕ) → m.pmem_words i < 2 ^ 32

-- The byte at an offset into `pmem_words`.
abbrev pub byte_at : Store → ℕ → ℕ
byte_at words k = field (k % 4 * 8) 8 (words (k / 4))

-- The memory after the byte at offset `k` is assigned.
abbrev pub put_byte : Store → ℕ → ℕ → Store
put_byte words k v = update words (k / 4) (put_field 32 (k % 4 * 8) 8 (words (k / 4)) v)

pub read-pmem :
    (a : ℕ) (m : UnifiedMem)
    → in_pmem a ≡ true
    → read_phys_byte a m ≡ some (byte_at m.pmem_words (a - pmem_base))
unfolding read_phys_byte
read-pmem a m h =
    let below : ltb 0xFFFFFFFF a ≡ false = ground arith in
    let index = word_index_lem pmem_base a (ground arith) refl (ground arith) in
    let inside : leb (pmem_size / 4) ((a - pmem_base) / 4) ≡ false = ground arith in
    let lane : a % 4 ≡ (a - pmem_base) % 4 = ground arith in
    rw (below, h, index, inside, shift_of_lem a, lane, bit_and_mask 8 _) (ap some (omega arith))

pub write-pmem :
    (a v : ℕ) (m : UnifiedMem)
    → in_pmem a ≡ true
    → v < 2 ^ 8
    → write_phys_byte a v m
      ≡ (true, record m { pmem_words = put_byte m.pmem_words (a - pmem_base) v })
unfolding write_phys_byte
write-pmem a v m h l =
    let below : ltb 0xFFFFFFFF a ≡ false = ground arith in
    let index = word_index_lem pmem_base a (ground arith) refl (ground arith) in
    let inside : leb (pmem_size / 4) ((a - pmem_base) / 4) ≡ false = ground arith in
    let lane : a % 4 ≡ (a - pmem_base) % 4 = ground arith in
    let put =
      merge-put (m.pmem_words ((a - pmem_base) / 4)) 8 ((a - pmem_base) % 4 * 8) v (omega arith)
        l in
    rw (below, h, index, inside, shift_of_lem a, lane, put) refl

-- Two bytes of one word stand apart.
beside :
    (j k : ℕ) → j / 4 ≡ k / 4 → j ≢ k → (j % 4 * 8 + 8 ≤ k % 4 * 8) ⊎ (k % 4 * 8 + 8 ≤ j % 4 * 8)
beside j k e ne = elim (le_or_lt (j % 4) (k % 4)) [
  | inl le ↦ inr (ground arith)
  | inr lt ↦ inl (omega arith)
]

byte_at-put_byte :
    (s : Store) (k j v : ℕ)
    → ((i : ℕ) → s i < 2 ^ 32)
    → v < 2 ^ 8
    → byte_at (put_byte s k v) j ≡ (if j == k then v else byte_at s j)
byte_at-put_byte s k j v h l = elim (Bool-cases (j / 4 == k / 4)) [
  | inr other ↦
      let apart =
        update_ne s (k / 4) (put_field 32 (k % 4 * 8) 8 (s (k / 4)) v) (j / 4) (ground arith) in
      let ne : (j == k) ≡ false = ground arith in rw (apart, ne) refl
  | inl same ↦
      let e : j / 4 ≡ k / 4 = ground arith in
      let x = s (k / 4) in
      let w = put_field 32 (k % 4 * 8) 8 x v in
      elim (Bool-cases (j == k)) [
        | inl eq ↦
            let f : j ≡ k = ground arith in
            rw (eq, f, update_self s (k / 4) w)
              (field-put_field 32 (k % 4 * 8) 8 x v (omega arith) (h (k / 4)) l)
        | inr ne ↦
            rw (ne, e, update_self s (k / 4) w)
              (field-other 32 (k % 4 * 8) 8 x v (j % 4 * 8) 8 (omega arith) (h (k / 4)) l
                (beside j k e (ground arith)))
      ]
]

pub put_byte-IsWords :
    (s : Store) (k v : ℕ)
    → ((i : ℕ) → s i < 2 ^ 32)
    → v < 2 ^ 8
    → (i : ℕ) → put_byte s k v i < 2 ^ 32
unfolding update
put_byte-IsWords s k v h l i =
    ground (arith, put_field-lt 32 (k % 4 * 8) 8 (s (k / 4)) v (omega arith) (h (k / 4)) l, h i)

pub read-boot :
    (b : ℕ) (s : Store) (m : UnifiedMem)
    → in_pmem b ≡ false
    → read_phys_byte b (record m { pmem_words = s }) ≡ read_phys_byte b m
unfolding read_phys_byte
read-boot b s m h = rw h refl

-- Reading after writing one byte of memory gives that byte, and every other byte is kept.
pub read-write_byte :
    (a v b : ℕ) (m : UnifiedMem)
    → IsWords m
    → in_pmem a ≡ true
    → v < 2 ^ 8
    → read_phys_byte b ((write_phys_byte a v m).1) ≡ (if b == a then some v else read_phys_byte b m)
unfolding IsWords
read-write_byte a v b m w h l = elim (Bool-cases (in_pmem b)) [
  | inl inside ↦
      let k = a - pmem_base in
      let j = b - pmem_base in
      let same : (j == k) ≡ (b == a) = ground arith in
      rw
        (
          write-pmem a v m h l,
          read-pmem b m inside,
          read-pmem b (record m { pmem_words = put_byte m.pmem_words k v }) inside,
          byte_at-put_byte m.pmem_words k j v w l,
          same,
        )
        (ground arith)
  | inr outside ↦
      let ne : (b == a) ≡ false = ground arith in
      rw (write-pmem a v m h l, ne)
        (read-boot b (put_byte m.pmem_words (a - pmem_base) v) m outside)
]

write-outside : (a v : ℕ) (m : UnifiedMem) → in_pmem a ≡ false → write_phys_byte a v m ≡ (false, m)
unfolding write_phys_byte
write-outside a v m h = rw h (ground arith)

pub write_byte-IsWords :
    (a v : ℕ) (m : UnifiedMem) → IsWords m → v < 2 ^ 8 → IsWords ((write_phys_byte a v m).1)
unfolding IsWords
write_byte-IsWords a v m w l = elim (Bool-cases (in_pmem a)) [
  | inl inside ↦
      rw (write-pmem a v m inside l) (put_byte-IsWords m.pmem_words (a - pmem_base) v w l)
  | inr outside ↦ rw (write-outside a v m outside) w
]

pub write_ok :
    (a v : ℕ) (m : UnifiedMem) → in_pmem a ≡ true → v < 2 ^ 8 → (write_phys_byte a v m).0 ≡ true
write_ok a v m h l = rw (write-pmem a v m h l) refl

-- What `n` bytes of a value from byte `i` on, written at `a`, leave to be read.
unfoldable pub Holds : ℕ → ℕ → ℕ → ℕ → UnifiedMem → UnifiedMem → Type 0
Holds n i a value m m' =
    (b : ℕ)
    → read_phys_byte b m' ≡ (
        if leb (a + i) b && ltb b (a + i + n)
        then some (field ((b - a) * 8) 8 value)
        else read_phys_byte b m)

pub write_bytes-Holds :
    (n i a value : ℕ) (m : UnifiedMem)
    → IsWords m
    → ((j : ℕ) → j < n → in_pmem (a + i + j) ≡ true)
    → ((write_bytes n i a value m).0 ≡ true)
      × Holds n i a value m ((write_bytes n i a value m).1)
      × IsWords ((write_bytes n i a value m).1)
unfolding write_bytes Holds
write_bytes-Holds zero i a value m w inside = (refl, λ b. ground arith, w)
write_bytes-Holds (suc n) i a value m w inside =
    let rest =
      write_bytes-Holds n (i + 1) a value m1 (write_byte-IsWords (a + i) d m w d-lt) later in
    rw (addr, bytes, write_ok (a + i) d m here d-lt)
      (rest.0, λ b. rest.1 b ∙ rw (read-write_byte (a + i) d b m w here d-lt) (added b), rest.2)
  where
    d : ℕ
    d = field (i * 8) 8 value

    d-lt : d < 2 ^ 8
    d-lt = omega arith

    here : in_pmem (a + i) ≡ true
    here = let e : a + i + 0 ≡ a + i = omega arith in ap in_pmem (sym e) ∙ inside 0 (omega arith)

    addr : u64 (a + i) ≡ a + i
    addr = ground (arith, here)

    bytes : bit_and (value >> (i * 8)) 0xff ≡ d
    bytes = bit_and_mask 8 (value / 2 ^ (i * 8))

    later : (j : ℕ) → j < n → in_pmem (a + (i + 1) + j) ≡ true
    later j lt =
        let e : a + (i + 1) + j ≡ a + i + suc j = omega arith in
        ap in_pmem e ∙ inside (suc j) (omega arith)

    m1 : UnifiedMem
    m1 = (write_phys_byte (a + i) d m).1

    added :
        (b : ℕ)
        → (if leb (a + (i + 1)) b && ltb b (a + (i + 1) + n)
            then some (field ((b - a) * 8) 8 value)
            else if b == a + i
            then some d
            else read_phys_byte b m)
          ≡ (if leb (a + i) b && ltb b (a + i + suc n)
              then some (field ((b - a) * 8) 8 value)
              else read_phys_byte b m)
    added b = ground (arith, at)
      where
        at : b ≡ a + i → field ((b - a) * 8) 8 value ≡ d
        at e = let k : b - a ≡ i = omega arith in rw k refl
