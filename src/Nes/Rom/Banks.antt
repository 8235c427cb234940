-- ===== src/Nes/Rom/Banks.antt =====
-- Where a cartridge image with one program block and one pattern page ends up.
use Prim.Native.Nat.{bit_and}
use triathlon.Prelude.{
  ℕ, zero, suc, ◌+◌, ◌*◌, ◌≤◌, ◌≡◌, refl, arith, ◌==◌, ltb, none, Bool-cases, inl, inr, true, false,
  ◌||◌,
}
use triathlon.Prelude.Words.{◌>>◌}
use triathlon.Prelude.Store.{Store}
use triathlon.Nes.State.{Mmc, Ppu}
use triathlon.Nes.Mmc.{copy_into, mmc_append_chr_rom_page}
use triathlon.Nes.Rom.{
  has_signature, prg_block_count, chr_block_count, rom_type, load_pages, load_program, fce_load_rom,
  from_offset,
}

-- An accepted image whose mapper is 0 or 3.
pub record Accepted (rom : Store) : Type 0 where
  pub signature : has_signature rom ≡ true
  pub mapper :
      (bit_and (rom_type rom) 0xf0 >> 4 == 0 || bit_and (rom_type rom) 0xf0 >> 4 == 3) ≡ true

-- The cartridge after its first page of patterns, which stands at `at` in the image.
abbrev with_page : Store → ℕ → Mmc → Mmc
with_page rom at m = record m {
  chr_pages = copy_into m.chr_pages (m.chr_pages_number * 0x2000) (from_offset rom at) 0x2000;
  chr_pages_number = m.chr_pages_number + 1;
}

no_room :
    (rom : Store) (n i at : ℕ) (m : Mmc) (u : Ppu)
    → 1 ≤ m.chr_pages_number
    → load_pages rom (suc n) i at (m, u) ≡ none
unfolding load_pages mmc_append_chr_rom_page
no_room rom n i at m u h =
    let full : ltb m.chr_pages_number 1 ≡ false = ground arith in rw (full, load_pages) refl

two_pages :
    (rom : Store) (n i at : ℕ) (m : Mmc) (u : Ppu) → 2 ≤ n → load_pages rom n i at (m, u) ≡ none
unfolding load_pages mmc_append_chr_rom_page
two_pages rom zero i at m u h = absurd (omega arith)
two_pages rom (suc zero) i at m u h = absurd (omega arith)
two_pages rom (suc (suc n)) i at m u h = elim (Bool-cases (ltb m.chr_pages_number 1)) [
  | inl e ↦
      rw (e, load_pages) (no_room rom n (i + 1) (at + 0x2000) (with_page rom at m) _ (omega arith))
  | inr e ↦ rw (e, load_pages) refl
]

-- An image of a mapper it knows with two pages of patterns or more is never loaded: the assertion
-- fails.
pub load_rom-pages :
    (rom : Store) (m : Mmc) (u : Ppu)
    → Accepted rom
    → 2 ≤ chr_block_count rom
    → fce_load_rom rom m u ≡ none
unfolding fce_load_rom
load_rom-pages rom m u ok two =
    rw
      (
        ok.signature,
        ok.mapper,
        two_pages rom (chr_block_count rom) 0 (16 + prg_block_count rom * 0x4000)
            (load_program rom (record m { id = bit_and (rom_type rom) 0xf0 >> 4 })) u two,
        fce_load_rom,
      )
      refl
