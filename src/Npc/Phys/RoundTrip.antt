-- ===== src/Npc/Phys/RoundTrip.antt =====
-- Words and half words of memory_models.h, put together from bytes.
use triathlon.Prelude.{
  ℕ, ◌+◌, ◌-◌, ◌*◌, ◌^◌, ◌<◌, ltb, leb, ◌&&◌, true, false, if◌then◌else◌, some, ◌≡◌, refl, ap, ◌∙◌,
  arith,
}
use triathlon.Prelude.Words.{u64}
use triathlon.Prelude.Fields.{field, join, field-all}
use triathlon.Npc.State.{UnifiedMem, in_pmem}
use triathlon.Npc.Phys.{read_phys_byte, read_phys_u32, write_phys_u32}
use triathlon.Npc.Phys.Bytes.{IsWords, Holds, write_bytes-Holds}

module _ (a : ℕ) (m : UnifiedMem) (w : IsWords m) where
  -- A word that lies in memory reads back as it was written, and all other bytes are kept.
  pub read_u32-write_u32 :
      (v : ℕ)
      → v < 2 ^ 32
      → in_pmem a ≡ true
      → in_pmem (a + 3) ≡ true
      → ((write_phys_u32 a v m).0 ≡ true)
        × (read_phys_u32 a ((write_phys_u32 a v m).1) ≡ some v)
        × ((b : ℕ)
            → (leb a b && ltb b (a + 4)) ≡ false
            → read_phys_byte b ((write_phys_u32 a v m).1) ≡ read_phys_byte b m)
  unfolding write_phys_u32 read_phys_u32 Holds
  read_u32-write_u32 v l h h' =
      let (ok, holds, _) = write_bytes-Holds 4 0 a v m w (λ j lt. ground arith) in
      let b0 = holds a ∙ at a 0 (omega arith) (omega arith) in
      let b1 = holds (a + 1) ∙ at (a + 1) 1 (omega arith) refl in
      let b2 = holds (a + 2) ∙ at (a + 2) 2 (omega arith) refl in
      let b3 = holds (a + 3) ∙ at (a + 3) 3 (omega arith) refl in
      (
        ok,
        rw (near 1 (omega arith), near 2 (omega arith), near 3 (omega arith), b0, b1, b2, b3)
            (ap some (rw (join v 8 8, join v 16 8, join v 24 8) (field-all v 32 l))),
        λ b e. holds b ∙ away b e,
      )
    where
      near : (j : ℕ) → j < 4 → u64 (a + j) ≡ a + j
      near j lt = ground arith

      at :
          (b j : ℕ)
          → j < 4
          → b ≡ a + j
          → (if leb (a + 0) b && ltb b (a + 0 + 4)
              then some (field ((b - a) * 8) 8 v)
              else read_phys_byte b m)
            ≡ some (field (j * 8) 8 v)
      at b j lt eq = let e : b - a ≡ j = omega arith in rw e (ground arith)

      away :
          (b : ℕ)
          → (leb a b && ltb b (a + 4)) ≡ false
          → (if leb (a + 0) b && ltb b (a + 0 + 4)
              then some (field ((b - a) * 8) 8 v)
              else read_phys_byte b m)
            ≡ read_phys_byte b m
      away b e = ground arith
