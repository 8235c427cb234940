-- ===== src/Nes/Rom.antt =====
-- The loading of a cartridge image, and `fce_init`, of fce.c.
use Prim.Native.Nat.{bit_and}
use triathlon.Prelude.{
  ℕ, zero, suc, ◌+◌, ◌*◌, Bool, true, false, not, ◌&&◌, ◌||◌, Option, none, some, ◌==◌,
  if◌then◌else◌,
}
use triathlon.Prelude.Words.{◌>>◌, b2n}
use triathlon.Prelude.Store.{Store}
use triathlon.Nes.State.{Machine, Mmc, Ppu}
use triathlon.Nes.Ppu.{ppu_copy, ppu_init, ppu_set_mirroring}
use triathlon.Nes.Mmc.{mmc_copy, mmc_append_chr_rom_page}
use triathlon.Nes.Run.{cpu_init, cpu_reset}
pub mod Banks

-- The fields of the header at the start of `rom` that the code reads.
unfoldable pub has_signature : Store → Bool
has_signature rom = (rom 0 == 0x4e) && (rom 1 == 0x45) && (rom 2 == 0x53) && (rom 3 == 0x1a)

unfoldable pub prg_block_count : Store → ℕ
prg_block_count rom = rom 4

unfoldable pub chr_block_count : Store → ℕ
chr_block_count rom = rom 5

-- A little-endian word.
unfoldable pub rom_type : Store → ℕ
rom_type rom = rom 6 + 256 * rom 7

-- `romread` moves `buf` past what it gives: here a block is the image from an offset on.
abbrev pub from_offset : Store → ℕ → Store
from_offset rom at i = rom (at + i)

-- The `n` pattern pages from `i` on, the first of which stands at `at`.
unfoldable pub load_pages : Store → ℕ → ℕ → ℕ → Mmc × Ppu → Option (Mmc × Ppu)
load_pages rom zero i at s = some s
load_pages rom (suc n) i at (m, u) = elim (mmc_append_chr_rom_page (from_offset rom at) m) [
  | none ↦ none
  | some m' ↦
      load_pages rom n (i + 1) (at + 0x2000)
        (m', if i == 0 then ppu_copy 0x0000 (from_offset rom at) 0x2000 u else u)
]

-- The program blocks: a single one stands twice.
unfoldable pub load_program : Store → Mmc → Mmc
load_program rom m =
    if prg_block_count rom == 1
    then mmc_copy 0xc000 (from_offset rom 16) 0x4000 (mmc_copy 0x8000 (from_offset rom 16) 0x4000 m)
    else mmc_copy 0x8000 (from_offset rom 16) 0x8000 m

-- What `fce_load_rom` returns, 0 or -1, and what it leaves.
pub data Loaded : Type 0 where
  loaded : Mmc → Ppu → Loaded
  refused : Mmc → Loaded

-- `none` is the failed assertion on a pattern page too many.
unfoldable pub fce_load_rom : Store → Mmc → Ppu → Option Loaded
fce_load_rom rom m u =
    let id = bit_and (rom_type rom) 0xf0 >> 4 in
    let m' = record m { id = id } in
    if not (has_signature rom)
    then some (refused m)
    else if id == 0 || id == 3
    then elim (load_pages rom (chr_block_count rom) 0 (16 + prg_block_count rom * 0x4000)
        (load_program rom m', u)) [ none ↦ none | some (m'', u') ↦ some (loaded m'' u') ]
    else some (refused m')

unfoldable pub fce_init : Store → Machine → Machine
fce_init rom s0 =
    let s = cpu_init s0 in
    cpu_reset (record s { ppu = ppu_set_mirroring (bit_and (rom_type rom) 1) (ppu_init s.ppu) })
