-- ===== src/Nes/Mmc.antt =====
-- The cartridge, mmc.c.
use Prim.Native.Nat.{bit_and}
use triathlon.Prelude.{ℕ, ◌+◌, ◌-◌, ◌*◌, ◌==◌, ltb, leb, if◌then◌else◌, Option, none, some}
use triathlon.Prelude.Store.{Store, update}
use triathlon.Nes.State.{Mmc, Ppu}
use triathlon.Nes.Ppu.{ppu_copy}

-- MMC_MAX_PAGE_COUNT.
abbrev pub max_page_count : ℕ
max_page_count = 1

unfoldable pub mmc_read : ℕ → Mmc → ℕ
mmc_read address m = m.memory address

-- A write to a mapper 3 cartridge selects the page of patterns that the picture unit sees.
unfoldable pub mmc_write : ℕ → ℕ → Mmc → Ppu → Mmc × Ppu
mmc_write address value m u = (
  record m { memory = update m.memory address value },
  if m.id == 3
      then ppu_copy 0x0000 (λ i. m.chr_pages (bit_and value 3 * 0x2000 + i)) 0x2000 u
      else u,
)

-- `memcpy` into an array at `offset`.
unfoldable pub copy_into : Store → ℕ → Store → ℕ → Store
copy_into dest offset source length i =
    if leb offset i then if ltb i (offset + length) then source (i - offset) else dest i else dest i

unfoldable pub mmc_copy : ℕ → Store → ℕ → Mmc → Mmc
mmc_copy address source length m = record m { memory = copy_into m.memory address source length }

-- `none` is the failed `assert`.
unfoldable pub mmc_append_chr_rom_page : Store → Mmc → Option Mmc
mmc_append_chr_rom_page source m =
    if ltb m.chr_pages_number max_page_count
    then some (record m {
      chr_pages = copy_into m.chr_pages (m.chr_pages_number * 0x2000) source 0x2000;
      chr_pages_number = m.chr_pages_number + 1;
    })
    else none
