-- ===== src/Nes/Memory/Dma.antt =====
-- A write to 0x4014 copies a page of RAM to the sprite memory.
use triathlon.Prelude.{ℕ, zero, suc, ◌+◌, ◌-◌, ◌*◌, ◌%◌, ◌≤◌, ◌<◌, ◌≡◌, refl, ◌∙◌, ap, arith}
use triathlon.Prelude.Words.{u8}
use triathlon.Prelude.Store.{Store, update, update_self, update_ne}
use triathlon.Nes.State.{Machine}
use triathlon.Nes.Ppu.{ppu_sprram_write}
use triathlon.Nes.Memory.{cpu_ram_read, dma_from, memory_writeb}

-- The machine with other sprite memory.
abbrev pub with_sprites : Machine → Store → ℕ → Machine
with_sprites s sprites at = record s { ppu = record (s.ppu) { sprram = sprites; oamaddr = at } }

-- The sprite memory after `n` of the page's bytes from `i` on.
sprites_from : Machine → ℕ → ℕ → ℕ → Store → ℕ → Store
sprites_from s page i zero m at = m
sprites_from s page i (suc n) m at =
    sprites_from s page (i + 1) n (update m at (cpu_ram_read (0x100 * page + i) s)) (u8 (at + 1))

-- OAMADDR after `n` writes.
advanced : ℕ → ℕ → ℕ
advanced zero at = at
advanced (suc n) at = advanced n (u8 (at + 1))

dma_from_lem :
    (page i n : ℕ) (s : Machine) (m : Store) (at : ℕ)
    → dma_from page i n (with_sprites s m at)
      ≡ with_sprites s (sprites_from s page i n m at) (advanced n at)
unfolding advanced dma_from sprites_from ppu_sprram_write cpu_ram_read
dma_from_lem page i zero s m at = refl
dma_from_lem page i (suc n) s m at =
    dma_from_lem page (i + 1) n s (update m at (cpu_ram_read (0x100 * page + i) s)) (u8 (at + 1))

advanced_lem : (n at : ℕ) → at < 256 → advanced n at ≡ (at + n) % 256
unfolding advanced
advanced_lem zero at h = omega arith
advanced_lem (suc n) at h = omega (arith, advanced_lem n (u8 (at + 1)) (omega arith))

-- Byte `j` of a run of at most 256 lands `j` places on, around the memory; the rest stays.
sprites_other :
    (s : Machine) (page i n : ℕ) (m : Store) (at k : ℕ)
    → at < 256
    → k < 256
    → n ≤ (k + 256 - at) % 256
    → sprites_from s page i n m at k ≡ m k
unfolding sprites_from
sprites_other s page i zero m at k h l far = refl
sprites_other s page i (suc n) m at k h l far =
    sprites_other s page (i + 1) n _ (u8 (at + 1)) k (omega arith) l (omega arith)
    ∙ update_ne m at _ k (omega arith)

sprites_copied :
    (s : Machine) (page i n : ℕ) (m : Store) (at j : ℕ)
    → at < 256
    → n ≤ 256
    → j < n
    → sprites_from s page i n m at ((at + j) % 256) ≡ cpu_ram_read (0x100 * page + (i + j)) s
unfolding sprites_from
sprites_copied s page i zero m at j h le l = absurd (omega arith)
sprites_copied s page i (suc n) m at zero h le l =
    let here : (at + 0) % 256 ≡ at = omega arith in
    let same : i + 0 ≡ i = omega arith in
    rw (here, same)
      (sprites_other s page (i + 1) n _ (u8 (at + 1)) at (omega arith) h (omega arith)
        ∙ update_self m at _)
sprites_copied s page i (suc n) m at (suc j) h le l =
    let there : (at + suc j) % 256 ≡ (u8 (at + 1) + j) % 256 = omega arith in
    let same : i + suc j ≡ i + 1 + j = omega arith in
    rw (there, same)
      (sprites_copied s page (i + 1) n _ (u8 (at + 1)) j (omega arith) (omega arith) (omega arith))

whole_turn : (at : ℕ) → at < 256 → (at + 256) % 256 ≡ at
whole_turn at h = omega arith

first_byte :
    (page j : ℕ) (s : Machine)
    → cpu_ram_read (0x100 * page + (0 + j)) s ≡ cpu_ram_read (0x100 * page + j) s
first_byte page j s = ap (λ k. cpu_ram_read (0x100 * page + k) s) (omega arith)

-- A write to 0x4014 fills the 256 bytes of sprite memory from OAMADDR on, around its end, with the
-- page of RAM that the value names, leaves OAMADDR where it was, and changes nothing else.
pub dma-copies :
    (page j : ℕ) (s : Machine)
    → page < 256
    → s.ppu.oamaddr < 256
    → j < 256
    → let s' = memory_writeb 0x4014 page s in
      (s'.ppu.sprram ((s.ppu.oamaddr + j) % 256) ≡ cpu_ram_read (0x100 * page + j) s)
      × (s' ≡ with_sprites s s'.ppu.sprram s.ppu.oamaddr)
unfolding memory_writeb
dma-copies page j s h k l =
    let byte : u8 page ≡ page = omega arith in
    let home : advanced 256 s.ppu.oamaddr ≡ s.ppu.oamaddr =
      advanced_lem 256 s.ppu.oamaddr k ∙ whole_turn s.ppu.oamaddr k in
    rw (byte, dma_from_lem page 0 256 s s.ppu.sprram s.ppu.oamaddr, home)
      (
        sprites_copied s page 0 256 s.ppu.sprram s.ppu.oamaddr j k (omega arith) l
            ∙ first_byte page j s,
        refl,
      )
