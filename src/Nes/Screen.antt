-- ===== src/Nes/Screen.antt =====
-- The canvas and the frame counter of fce.c, and the host screen.
use triathlon.Prelude.{
  ℕ, ◌+◌, ◌-◌, ◌*◌, ◌/◌, ◌%◌, not, ◌&&◌, ◌||◌, Bool, Option, none, some, List, [], ◌∷◌, get_or,
  ◌==◌, ltb, if◌then◌else◌,
}
use triathlon.Prelude.Words.{add_int, sub_int, is_neg_int, lt_int}
use triathlon.Prelude.Store.{Store, update}
use triathlon.Nes.State.{Ppu}
use triathlon.Nes.Ppu.{ppu_ram_read}
pub mod Bounds

-- `ppu_screen_background` of ppu.c is laid out flat, 248 cells a column; `shown` is what the host
-- was last given to draw.
pub record Screen : Type 0 where
  pub frame_cnt : ℕ
  pub canvas : Store
  pub background : Store
  pub shown : Store

abbrev pub scr_w : ℕ
scr_w = 256

abbrev pub scr_h : ℕ
scr_h = 240

-- FRAME_SKIP.
abbrev pub frame_skip : ℕ
frame_skip = 1

-- The 64 colors of fce.h.
abbrev palette_colors : List ℕ
palette_colors =
    0x808080 ∷ 0x0000BB ∷ 0x3700BF ∷ 0x8400A6 ∷ 0xBB006A ∷ 0xB7001E ∷ 0xB30000 ∷ 0x912600 ∷ 0x7B2B00
    ∷ 0x003E00 ∷ 0x00480D ∷ 0x003C22 ∷ 0x002F66 ∷ 0x000000 ∷ 0x050505 ∷ 0x050505 ∷ 0xC8C8C8
    ∷ 0x0059FF ∷ 0x443CFF ∷ 0xB733CC ∷ 0xFF33AA ∷ 0xFF375E ∷ 0xFF371A ∷ 0xD54B00 ∷ 0xC46200
    ∷ 0x3C7B00 ∷ 0x1E8415 ∷ 0x009566 ∷ 0x0084C4 ∷ 0x111111 ∷ 0x090909 ∷ 0x090909 ∷ 0xFFFFFF
    ∷ 0x0095FF ∷ 0x6F84FF ∷ 0xD56FFF ∷ 0xFF77CC ∷ 0xFF6F99 ∷ 0xFF7B59 ∷ 0xFF915F ∷ 0xFFA233
    ∷ 0xA6BF00 ∷ 0x51D96A ∷ 0x4DD5AE ∷ 0x00D9FF ∷ 0x666666 ∷ 0x0D0D0D ∷ 0x0D0D0D ∷ 0xFFFFFF
    ∷ 0x84BFFF ∷ 0xBBBBFF ∷ 0xD0BBFF ∷ 0xFFBFEA ∷ 0xFFBFCC ∷ 0xFFC4B7 ∷ 0xFFCCAE ∷ 0xFFD9A2
    ∷ 0xCCE199 ∷ 0xAEEEB7 ∷ 0xAAF7EE ∷ 0xB3EEFF ∷ 0xDDDDDD ∷ 0x111111 ∷ 0x111111 ∷ []

-- Past the 64 colors, where C reads what follows the table, this gives 0.
unfoldable pub palette : ℕ → ℕ
palette idx = get_or palette_colors idx 0

unfoldable pub candraw : Screen → Bool
candraw d = d.frame_cnt % (1 + frame_skip) == 0

-- `x` and `y` are `int`s.
unfoldable pub draw : ℕ → ℕ → ℕ → Screen → Screen
draw x y idx d =
    if not (is_neg_int x) && lt_int x scr_w && not (is_neg_int y) && lt_int y scr_h && candraw d
    then record d { canvas = update d.canvas (y * scr_w + x) (palette idx) }
    else d

-- The first `n` cells of an array, all set to one value.
unfoldable pub filled : ℕ → ℕ → Store → Store
filled n v m i = if ltb i n then v else m i

-- `none` is the panic on a host screen of `width` by `height` that is too small.
unfoldable pub fce_update_screen : ℕ → ℕ → Ppu → Screen → Option Screen
fce_update_screen width height u d0 =
    let d = record d0 { frame_cnt = add_int d0.frame_cnt 1 } in
    if not (candraw d)
    then some d
    else if ltb (width + 1) scr_w || ltb (height + 1) scr_h
    then none
    else some (record d {
      shown = d.canvas;
      canvas = filled (scr_w * scr_h) (palette (ppu_ram_read u 0x3f00)) d.canvas;
    })
