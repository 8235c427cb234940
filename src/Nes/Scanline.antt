-- ===== src/Nes/Scanline.antt =====
-- The drawing of a scanline, and `ppu_cycle`, of ppu.c.
use Prim.Native.Nat.{bit_and, bit_or}
use triathlon.Prelude.{
  ℕ, zero, suc, ◌+◌, ◌-◌, ◌*◌, ◌/◌, ◌%◌, ◌^◌, Bool, true, false, not, ◌&&◌, ◌||◌, Option, none,
  some, ◌==◌, ltb, leb, if◌then◌else◌, ◌>>=◌,
}
use triathlon.Prelude.Words.{u8, u16, add_int, sub_int, lt_int, shr_int, truth, ◌<<◌, ◌>>◌}
use triathlon.Prelude.Store.{Store, update}
use triathlon.Nes.State.{Machine, Ppu}
use triathlon.Nes.Ppu.{
  ppu_ram_read, ppu_base_nametable_address, ppu_background_pattern_table_address,
  ppu_sprite_pattern_table_address, ppu_sprite_height, ppu_shows_background,
  ppu_shows_background_in_leftmost_8px, ppu_shows_sprites, ppu_set_sprite_overflow,
  ppu_set_sprite_0_hit, ppu_set_in_vblank,
}
use triathlon.Nes.Screen.{Screen, draw, fce_update_screen, scr_h}
use triathlon.Nes.Run.{cpu_run, cpu_clock, cpu_interrupt}
pub mod Bounds

-- The two tables that `ppu_init` fills.
unfoldable pub ppu_l_h_addition_table : ℕ → ℕ → ℕ → ℕ
ppu_l_h_addition_table l h x = bit_or (bit_and (h >> (7 - x)) 1 << 1) (bit_and (l >> (7 - x)) 1)

unfoldable pub ppu_l_h_addition_flip_table : ℕ → ℕ → ℕ → ℕ
ppu_l_h_addition_flip_table l h x = bit_or (bit_and (h >> x) 1 << 1) (bit_and (l >> x) 1)

-- Two bits of the attribute byte, chosen by the quarter that the tile lies in.
unfoldable pub background_attribute : Bool → ℕ → Ppu → ℕ
background_attribute mirror tile_x u =
    let attribute_address = u16 (
      ppu_base_nametable_address u
      + (if mirror then 0x400 else 0)
      + 0x3c0
      + (tile_x >> 2)
      + (u.scanline >> 5) * 8) in
    let whole = ppu_ram_read u attribute_address in
    let half = if ltb (u.scanline % 32) 16 then whole else u8 (whole >> 4) in
    let quarter = if ltb (tile_x % 4) 2 then half else u8 (half >> 2) in bit_and quarter 3

-- One pixel of a tile whose two pattern bytes are `l` and `h`.
unfoldable pub background_pixel : Bool → ℕ → ℕ → ℕ → ℕ → Ppu → Screen → Screen
background_pixel mirror tile_x l h x u d =
    let color = ppu_l_h_addition_table l h x in
    let palette_address = u16 (0x3f00 + (background_attribute mirror tile_x u << 2)) in
    let idx = ppu_ram_read u (palette_address + color) in
    if color == 0
    then d
    else draw (add_int (sub_int ((tile_x << 3) + x) u.ppuscroll_x) (if mirror then 256 else 0))
        (add_int u.scanline 1) idx
        (record d {
          background = update d.background (((tile_x << 3) + x) * 248 + u.scanline) color;
        })

-- The `n` pixels from `x` on.
unfoldable pub background_pixels : Bool → ℕ → ℕ → ℕ → ℕ → ℕ → Ppu → Screen → Screen
background_pixels mirror tile_x l h zero x u d = d
background_pixels mirror tile_x l h (suc n) x u d =
    background_pixels mirror tile_x l h n (x + 1) u (background_pixel mirror tile_x l h x u d)

unfoldable pub background_tile : Bool → ℕ → Ppu → Screen → Screen
background_tile mirror tile_x u d =
    let tile_y = u.scanline >> 3 in
    let tile_index =
      ppu_ram_read u
        (ppu_base_nametable_address u + tile_x + (tile_y << 5) + (if mirror then 0x400 else 0)) in
    let tile_address = u16 (ppu_background_pattern_table_address u + 16 * tile_index) in
    let y_in_tile = bit_and u.scanline 0x7 in
    let l = ppu_ram_read u (tile_address + y_in_tile) in
    let h = ppu_ram_read u (tile_address + y_in_tile + 8) in
    if lt_int 256 (add_int (sub_int (tile_x << 3) u.ppuscroll_x) (if mirror then 256 else 0))
    then d
    else background_pixels mirror tile_x l h 8 0 u d

-- The `n` tiles from `tile_x` on.
unfoldable pub background_tiles : Bool → ℕ → ℕ → Ppu → Screen → Screen
background_tiles mirror zero tile_x u d = d
background_tiles mirror (suc n) tile_x u d =
    background_tiles mirror n (tile_x + 1) u (background_tile mirror tile_x u d)

unfoldable pub ppu_draw_background_scanline : Bool → Ppu → Screen → Screen
ppu_draw_background_scanline mirror u d =
    let first = if ppu_shows_background_in_leftmost_8px u then 0 else 1 in
    background_tiles mirror (32 - first) first u d

-- One pixel of the sprite at `n`; both priorities draw alike.
unfoldable pub sprite_pixel : ℕ → ℕ → ℕ → ℕ → Ppu × Screen → Ppu × Screen
sprite_pixel n l h x (u, d) =
    let hflip = truth (bit_and (u.sprram (n + 2)) 0x40) in
    let color = if hflip then ppu_l_h_addition_flip_table l h x else ppu_l_h_addition_table l h x in
    let palette_address = u16 (0x3f10 + (bit_and (u.sprram (n + 2)) 0x3 << 2)) in
    let screen_x = u.sprram (n + 3) + x in
    let y = u.sprram n + bit_and u.scanline 0x7 in
    let d' = draw screen_x (y + 1) (ppu_ram_read u (palette_address + color)) d in
    let hit =
      ppu_shows_background u
      && not u.sprite_hit_occured
      && (n == 0)
      && (d'.background (screen_x * 248 + y) == color) in
    if color == 0
    then (u, d)
    else if hit
    then (record (ppu_set_sprite_0_hit true u) { sprite_hit_occured = true }, d')
    else (u, d')

unfoldable pub sprite_pixels : ℕ → ℕ → ℕ → ℕ → ℕ → Ppu × Screen → Ppu × Screen
sprite_pixels n l h zero x s = s
sprite_pixels n l h (suc k) x s = sprite_pixels n l h k (x + 1) (sprite_pixel n l h x s)

-- The sprite at `n`, which is on the scanline, as the `count`th of it.
unfoldable pub draw_sprite : ℕ → ℕ → Ppu → Screen → Ppu × Screen
draw_sprite n count u0 d =
    let u = if ltb 8 count then ppu_set_sprite_overflow true u0 else u0 in
    let vflip = truth (bit_and (u.sprram (n + 2)) 0x80) in
    let tile_address = u16 (ppu_sprite_pattern_table_address u + 16 * u.sprram (n + 1)) in
    let y_in_tile = bit_and u.scanline 0x7 in
    let row = if vflip then 7 - y_in_tile else y_in_tile in
    let l = ppu_ram_read u (tile_address + row) in
    let h = ppu_ram_read u (tile_address + row + 8) in sprite_pixels n l h 8 0 (u, d)

-- The `k` sprites from the one at `n` on, after `count` that were on the scanline.
unfoldable pub sprites_loop : ℕ → ℕ → ℕ → Ppu → Screen → Ppu × Screen
sprites_loop zero n count u d = (u, d)
sprites_loop (suc k) n count u d =
    let off =
      lt_int u.scanline (u.sprram n) || lt_int (u.sprram n + ppu_sprite_height u) u.scanline in
    let (u', d') = if off then (u, d) else draw_sprite n (count + 1) u d in
    sprites_loop k (n + 4) (if off then count else count + 1) u' d'

unfoldable pub ppu_draw_sprite_scanline : Ppu → Screen → Ppu × Screen
ppu_draw_sprite_scanline u d = sprites_loop 64 0 0 u d

-- `if (!ppu.ready && cpu_clock() > 29658) ppu.ready = true`.
unfoldable pub wake_up : Machine → Machine
wake_up s =
    if not s.ppu.ready && ltb 29658 (cpu_clock s)
    then record s { ppu = record (s.ppu) { ready = true } }
    else s

-- What a scanline draws of the background, after `scanline++`.
unfoldable pub draw_background : Ppu → Screen → Screen
draw_background u d =
    if lt_int u.scanline scr_h && ppu_shows_background u
    then ppu_draw_background_scanline true u (ppu_draw_background_scanline false u d)
    else d

unfoldable pub draw_sprites : Ppu → Screen → Ppu × Screen
draw_sprites u d =
    if lt_int u.scanline scr_h && ppu_shows_sprites u then ppu_draw_sprite_scanline u d else (u, d)

-- The end of a scanline: the start of the vertical blank, or of the next frame.
unfoldable pub end_of_scanline : ℕ → ℕ → Machine → Screen → Option (Machine × Screen)
end_of_scanline width height s d =
    let blank = ppu_set_sprite_0_hit false (ppu_set_in_vblank true s.ppu) in
    let u =
      ppu_set_in_vblank false
        (record (s.ppu) { scanline = 2 ^ 32 - 1; sprite_hit_occured = false }) in
    if s.ppu.scanline == 241
    then some (cpu_interrupt (record s { ppu = blank }), d)
    else if s.ppu.scanline == 262
    then elim (fce_update_screen width height u d) [
      | none ↦ none
      | some d' ↦ some (record s { ppu = u }, d')
    ]
    else some (s, d)

-- `fuel` is that of each of the three runs of the processor.
unfoldable pub ppu_cycle : ℕ → ℕ → ℕ → Machine → Screen → Option (Machine × Screen)
ppu_cycle fuel width height s0 d0 = do
  s1 ← cpu_run fuel 256 (wake_up s0)
  let s2 = record s1 { ppu = record (s1.ppu) { scanline = add_int s1.ppu.scanline 1 } }
  let d1 = draw_background s2.ppu d0
  s3 ← cpu_run fuel (85 - 16) s2
  let (u, d2) = draw_sprites s3.ppu d1
  s4 ← cpu_run fuel 16 (record s3 { ppu = u })
  end_of_scanline width height s4 d2
