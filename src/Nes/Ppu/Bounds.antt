-- ===== src/Nes/Ppu/Bounds.antt =====
-- The picture unit's memory is only touched inside its 0x4000 bytes.
use Prim.Native.Nat.{bit_and, bit_or, bit_xor}
use triathlon.Prelude.{
  ℕ, ◌+◌, ◌-◌, ◌%◌, ◌≤◌, ◌<◌, ◌≡◌, refl, true, ◌||◌, arith, ◌==◌, ltb, if◌then◌else◌, ==_iff,
  ltb→lt, Bool-cases, inl, inr,
}
use triathlon.Prelude.Bits.{
  bit_and-lt, bit_or-lt, bit_xor-lt, bit_and_mask, all_below, all_below-lt,
}
use triathlon.Prelude.Words.{u16}
use triathlon.Prelude.Store.{Store, update_ne}
use triathlon.Nes.State.{Ppu}
use triathlon.Nes.Ppu.{
  ppu_get_real_ram_address, palette_entry, ppu_ram_read, ppu_ram_write, ppuio_read, ppuio_write,
  write_register, write_scroll, write_addr, write_data, ppu_sprram_write, read_status, read_data,
}

folded_lt : (a : ℕ) → bit_or 0x3f00 (bit_and a 0x1f) < 0x4000
folded_lt a =
    bit_or-lt 14 0x3f00 (bit_and a 0x1f) (omega arith) (omega (arith, bit_and-lt 5 a 0x1f))

-- An address of the unit's own space stands for one of its memory.
pub real-lt : (a : ℕ) → a < 0x4000 → ppu_get_real_ram_address a < 0x4000
unfolding ppu_get_real_ram_address palette_entry
real-lt a h = ground (arith, folded_lt a)

low_14 : (a : ℕ) → bit_and a 0x3fff < 0x4000
low_14 a = bit_and-lt 14 a 0x3fff (omega arith)

ram_write-inside :
    (a v i : ℕ) (u : Ppu) → a < 0x4000 → 0x4000 ≤ i → (ppu_ram_write a v u).ram i ≡ u.ram i
unfolding ppu_ram_write
ram_write-inside a v i u h le =
    let word : u16 a ≡ a = omega arith in
    update_ne u.ram (ppu_get_real_ram_address (u16 a)) v i (rw word (omega (arith, real-lt a h)))

write_data-inside :
    (v i : ℕ) (u : Ppu)
    → u.ppuaddr < 0x4000
    → u.mirroring_xor < 0x4000
    → 0x4000 ≤ i
    → (write_data v u).ram i ≡ u.ram i
unfolding write_data
write_data-inside v i u h k le =
    let mirror : ℕ = bit_xor u.ppuaddr u.mirroring_xor in
    let first : (ppu_ram_write mirror v u).ram i ≡ u.ram i =
      ram_write-inside mirror v i u (bit_xor-lt 14 u.ppuaddr u.mirroring_xor h k) le in
    ground (
      arith,
      first,
      ram_write-inside u.ppuaddr v i (ppu_ram_write mirror v u) h le,
      ram_write-inside u.ppuaddr v i u h le,
    )

write_register-inside :
    (r v i : ℕ) (u : Ppu)
    → u.ppuaddr < 0x4000
    → u.mirroring_xor < 0x4000
    → 0x4000 ≤ i
    → (write_register r v u).ram i ≡ u.ram i
unfolding write_register write_scroll write_addr ppu_sprram_write
write_register-inside r v i u h k le = ground (arith, write_data-inside v i u h k le)

-- No register write reaches past the 0x4000 bytes of PPU_RAM, with any mirroring below that size.
pub ppuio_write-inside :
    (address value i : ℕ) (u : Ppu)
    → u.mirroring_xor < 0x4000
    → 0x4000 ≤ i
    → (ppuio_write address value u).ram i ≡ u.ram i
unfolding ppuio_write
ppuio_write-inside address value i u k le =
    let masked : Ppu = record u { latch = value; ppuaddr = bit_and u.ppuaddr 0x3fff } in
    ground (arith, write_register-inside (bit_and address 7) value i masked (low_14 u.ppuaddr) k le)

-- No register read depends on anything past those bytes.
pub ppuio_read-inside :
    (address : ℕ) (ram : Store) (u : Ppu)
    → ((i : ℕ) → i < 0x4000 → ram i ≡ u.ram i)
    → (ppuio_read address (record u { ram = ram })).0 ≡ (ppuio_read address u).0
unfolding ppuio_read read_status read_data ppu_ram_read
ppuio_read-inside address ram u same =
    let a : ℕ = bit_and u.ppuaddr 0x3fff in
    let word : u16 a ≡ a = omega (arith, low_14 u.ppuaddr) in
    let at : ram (ppu_get_real_ram_address (u16 a)) ≡ u.ram (ppu_get_real_ram_address (u16 a)) =
      same (ppu_get_real_ram_address (u16 a)) (rw word (real-lt a (low_14 u.ppuaddr))) in
    ground (arith, at)

palette_table : all_below 32 (λ k. bit_or 0x3f00 k == 0x3f00 + k) ≡ true
palette_table = refl

folded_sum : (a : ℕ) → bit_or 0x3f00 (bit_and a 0x1f) ≡ 0x3f00 + a % 32
folded_sum a = rw (bit_and_mask 5 a) (
    (==_iff _ _).0
      (all_below-lt 32 (λ k. bit_or 0x3f00 k == 0x3f00 + k) (a % 32) palette_table (omega arith)))

-- The palette's 32 entries without the four that only mirror others.
abbrev pub palette_index : ℕ → ℕ
palette_index a =
    if a % 32 == 16 || a % 32 == 20 || a % 32 == 24 || a % 32 == 28 then a % 32 - 16 else a % 32

real-palette :
    (a : ℕ) → 0x3f00 ≤ a → a < 0x4000 → ppu_get_real_ram_address a ≡ 0x3f00 + palette_index a
unfolding ppu_get_real_ram_address palette_entry
real-palette a lo hi = ground (arith, folded_sum a)

real-plain : (a : ℕ) → a < 0x3f00 → ppu_get_real_ram_address a ≡ a
unfolding ppu_get_real_ram_address
real-plain a h = ground arith

palette_index-twice : (a : ℕ) → palette_index (0x3f00 + palette_index a) ≡ palette_index a
palette_index-twice a = ground arith

-- Folding an address of the unit's space keeps what is below the palettes and takes a palette
-- address to one of 32 entries, the backdrops of the sprite palettes being those of the background
-- palettes; folding twice is folding once.
pub real-real :
    (a : ℕ)
    → a < 0x4000
    → (ppu_get_real_ram_address a ≡ (if ltb a 0x3f00 then a else 0x3f00 + palette_index a))
      × (ppu_get_real_ram_address (ppu_get_real_ram_address a) ≡ ppu_get_real_ram_address a)
real-real a h = elim (Bool-cases (ltb a 0x3f00)) [
  | inl lo ↦
      let plain = real-plain a (ltb→lt a _ lo) in (rw (plain, lo) refl, rw (plain, plain) refl)
  | inr hi ↦
      let le : 0x3f00 ≤ a = ground arith in
      let below : palette_index a < 32 = ground arith in
      (
        rw (real-palette a le h, hi) refl,
        rw
            (
              real-palette a le h,
              real-palette (0x3f00 + palette_index a) (omega arith) (omega arith),
              palette_index-twice a,
            )
            refl,
      )
]
