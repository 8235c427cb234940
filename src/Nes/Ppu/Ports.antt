-- ===== src/Nes/Ppu/Ports.antt =====
-- The address and data ports of the picture unit, and its status.
use Prim.Native.Nat.{bit_and, bit_xor}
use triathlon.Prelude.{
  ℕ, zero, suc, ◌+◌, ◌-◌, ◌*◌, ◌%◌, ◌^◌, ◌≤◌, ◌<◌, ◌≡◌, ◌≢◌, refl, ◌∙◌, Bool, true, false, not,
  ◌&&◌, ◌||◌, arith, ◌==◌, ltb,
}
use triathlon.Prelude.Bits.{bit_and_mask, all_below, all_below-lt}
use triathlon.Prelude.Words.{u16, ◌<<◌}
use triathlon.Prelude.Store.{update, update_self, update_ne}
use triathlon.Nes.State.{Ppu}
use triathlon.Nes.Ppu.{
  ppu_get_real_ram_address, ppu_ram_read, ppu_ram_write, ppuio_read, ppuio_write, write_register,
  write_addr, write_data, read_data, write_scroll, ppu_sprram_write,
}

-- Two writes of the address port of a ready unit that awaits the high byte set PPUADDR to the word
-- of the two bytes, await a high byte again, and touch no memory.
pub ppuaddr-set :
    (hi lo : ℕ) (u : Ppu)
    → hi < 256
    → lo < 256
    → u.ready ≡ true
    → u.addr_received_high_byte ≡ false
    → let u' = ppuio_write 6 lo (ppuio_write 6 hi u) in
      (u'.ppuaddr ≡ 256 * hi + lo)
      × (u'.addr_received_high_byte ≡ false)
      × (u'.first_read ≡ true)
      × (u'.ram ≡ u.ram)
unfolding ppuio_write write_register write_addr
ppuaddr-set hi lo u h k ready wait = rw (ready, wait) (omega arith, refl, refl, refl)

-- A unit that is not ready takes neither an address nor a control or mask value.
pub write-not_ready :
    (address value : ℕ) (u : Ppu)
    → u.ready ≡ false
    → let u' = ppuio_write address value u in
      (u'.ppuctrl ≡ u.ppuctrl) × (u'.ppumask ≡ u.ppumask) × (u'.ppuaddr ≡ bit_and u.ppuaddr 0x3fff)
unfolding ppuio_write write_register write_scroll write_data ppu_ram_write ppu_sprram_write
write-not_ready address value u h = rw h (ground arith)

-- The test in case 7 holds for every address: each write also goes to the mirrored address.
write_data_lem :
    (v : ℕ) (u : Ppu)
    → write_data v u
      ≡ ppu_ram_write u.ppuaddr v (ppu_ram_write (bit_xor u.ppuaddr u.mirroring_xor) v u)
unfolding write_data
write_data_lem v u =
    let always : (ltb 0x1fff u.ppuaddr || ltb u.ppuaddr 0x4000) ≡ true = ground arith in
    rw always refl

low_14-twice : (a : ℕ) → bit_and (bit_and a 0x3fff) 0x3fff ≡ bit_and a 0x3fff
low_14-twice a = rw (bit_and_mask 14 a, bit_and_mask 14 (a % 2 ^ 14)) (omega arith)

-- What is written to the data port is read back from it, whatever the mirroring and whatever the
-- state of the port; the write leaves PPUADDR at its low 14 bits, and so does not move an address
-- below 0x4000.
pub read-write_data :
    (v : ℕ) (u : Ppu)
    → let u' = ppuio_write 7 v u in
      ((ppuio_read 7 u').0 ≡ v) × (u'.ppuaddr ≡ bit_and u.ppuaddr 0x3fff)
unfolding ppuio_read ppuio_write write_register read_data ppu_ram_read ppu_ram_write
read-write_data v u =
    let a : ℕ = bit_and u.ppuaddr 0x3fff in
    let masked : Ppu = record u { latch = v; ppuaddr = a } in
    rw (write_data_lem v masked, low_14-twice u.ppuaddr) (update_self _ _ v, refl)

mirror_fits : ℕ → ℕ → Bool
mirror_fits x k = ltb (bit_xor (0x2000 + k) x) 0x3f00 && not (bit_xor (0x2000 + k) x == 0x2000 + k)

fits_of : (m a : ℕ) → (ltb m 0x3f00 && not (m == a)) ≡ true → (m < 0x3f00) × (m ≢ a)
fits_of m a h = ground arith

mirror_of :
    (x a : ℕ)
    → all_below 0x1000 (mirror_fits x) ≡ true
    → 0x2000 ≤ a
    → a < 0x3000
    → (bit_xor a x < 0x3f00) × (bit_xor a x ≢ a)
unfolding mirror_fits
mirror_of x a table lo hi =
    let back : 0x2000 + (a - 0x2000) ≡ a = omega arith in
    let fits : mirror_fits x (a - 0x2000) ≡ true =
      all_below-lt 0x1000 (mirror_fits x) (a - 0x2000) table (omega arith) in
    fits_of (bit_xor a x) a (rw back at fits)

mirror_lem :
    (a i : ℕ)
    → i < 2
    → 0x2000 ≤ a
    → a < 0x3000
    → (bit_xor a (0x400 << i) < 0x3f00) × (bit_xor a (0x400 << i) ≢ a)
unfolding mirror_fits
mirror_lem a zero h lo hi = mirror_of 0x400 a refl lo hi
mirror_lem a (suc zero) h lo hi = mirror_of 0x800 a refl lo hi
mirror_lem a (suc (suc i)) h lo hi = absurd (omega arith)

plain : (a : ℕ) → a < 0x3f00 → ppu_get_real_ram_address (u16 a) ≡ a
unfolding ppu_get_real_ram_address
plain a h = ground arith

-- In the nametables, 0x2000 to 0x2FFF, the mirrored address holds the byte too, for both kinds of
-- mirroring.
pub write_data-mirrors :
    (v i : ℕ) (u : Ppu)
    → i < 2
    → u.mirroring_xor ≡ 0x400 << i
    → 0x2000 ≤ u.ppuaddr
    → u.ppuaddr < 0x3000
    → (ppuio_write 7 v u).ram (bit_xor u.ppuaddr u.mirroring_xor) ≡ v
unfolding ppuio_write write_register ppu_ram_write
write_data-mirrors v i u h e lo hi =
    let a : ℕ = u.ppuaddr in
    let m : ℕ = bit_xor a (0x400 << i) in
    let masked : Ppu = record u { latch = v } in
    let same : bit_and a 0x3fff ≡ a = rw (bit_and_mask 14 a) (omega arith) in
    let mirror = mirror_lem a i h lo hi in
    rw (same, write_data_lem v masked, e, plain a (omega arith), plain m mirror.0)
      (update_ne (update u.ram m v) a v m mirror.1 ∙ update_self u.ram m v)
