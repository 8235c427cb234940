-- ===== src/Nes/Scanline/Bounds.antt =====
-- A scanline's drawing stays on the canvas.
use triathlon.Prelude.{
  ℕ, zero, suc, ◌+◌, ◌*◌, ◌≤◌, ◌≡◌, refl, ◌∙◌, arith, Bool, ◌==◌, if◌then◌else◌, Bool-cases, inl,
  inr,
}
use triathlon.Prelude.Words.{add_int, sub_int, lt_int, ◌<<◌}
use triathlon.Nes.State.{Ppu}
use triathlon.Nes.Screen.{Screen}
use triathlon.Nes.Screen.Bounds.{draw-inside}
use triathlon.Nes.Scanline.{
  background_pixel, background_pixels, background_tile, background_tiles,
  ppu_draw_background_scanline, ppu_l_h_addition_table,
}

pixel-inside :
    (mirror : Bool) (tile_x l h x k : ℕ) (u : Ppu) (d : Screen)
    → 256 * 240 ≤ k
    → (background_pixel mirror tile_x l h x u d).canvas k ≡ d.canvas k
unfolding background_pixel
pixel-inside mirror tile_x l h x k u d far = elim (Bool-cases (ppu_l_h_addition_table l h x == 0)) [
  | inl e ↦ rw (e, background_pixel) refl
  | inr e ↦ rw (e, background_pixel) (draw-inside _ _ _ k _ (omega arith) (omega arith) far)
]

pixels-inside :
    (mirror : Bool) (tile_x l h n x k : ℕ) (u : Ppu) (d : Screen)
    → 256 * 240 ≤ k
    → (background_pixels mirror tile_x l h n x u d).canvas k ≡ d.canvas k
unfolding background_pixels
pixels-inside mirror tile_x l h zero x k u d far = refl
pixels-inside mirror tile_x l h (suc n) x k u d far =
    pixels-inside mirror tile_x l h n (x + 1) k u (background_pixel mirror tile_x l h x u d) far
    ∙ pixel-inside mirror tile_x l h x k u d far

tile-inside :
    (mirror : Bool) (tile_x k : ℕ) (u : Ppu) (d : Screen)
    → 256 * 240 ≤ k
    → (background_tile mirror tile_x u d).canvas k ≡ d.canvas k
unfolding background_tile
tile-inside mirror tile_x k u d far =
    elim (Bool-cases
      (lt_int 256 (add_int (sub_int (tile_x << 3) u.ppuscroll_x) (if mirror then 256 else 0)))) [
        | inl e ↦ rw (e, background_tile) refl
        | inr e ↦ rw (e, background_tile) (pixels-inside mirror tile_x _ _ 8 0 k u d far)
      ]

tiles-inside :
    (mirror : Bool) (n tile_x k : ℕ) (u : Ppu) (d : Screen)
    → 256 * 240 ≤ k
    → (background_tiles mirror n tile_x u d).canvas k ≡ d.canvas k
unfolding background_tiles
tiles-inside mirror zero tile_x k u d far = refl
tiles-inside mirror (suc n) tile_x k u d far =
    tiles-inside mirror n (tile_x + 1) k u (background_tile mirror tile_x u d) far
    ∙ tile-inside mirror tile_x k u d far

-- Drawing the background of a scanline, with whatever scrolling, leaves every cell past the
-- canvas of 256 by 240 as it was.
pub background-inside :
    (mirror : Bool) (k : ℕ) (u : Ppu) (d : Screen)
    → 256 * 240 ≤ k
    → (ppu_draw_background_scanline mirror u d).canvas k ≡ d.canvas k
unfolding ppu_draw_background_scanline
background-inside mirror k u d far = tiles-inside mirror _ _ k u d far
