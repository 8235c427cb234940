-- ===== src/Nes/Screen/Bounds.antt =====
-- Drawing stays on the canvas.
use triathlon.Prelude.{ℕ, ◌*◌, ◌^◌, ◌≤◌, ◌<◌, ◌≡◌, arith}
use triathlon.Prelude.Store.{update}
use triathlon.Nes.Screen.{Screen, draw, scr_w, scr_h}

-- `draw` at any two `int`s writes no cell past the canvas.
pub draw-inside :
    (x y idx k : ℕ) (d : Screen)
    → x < 2 ^ 32
    → y < 2 ^ 32
    → scr_w * scr_h ≤ k
    → (draw x y idx d).canvas k ≡ d.canvas k
unfolding draw update
draw-inside x y idx k d h l far = ground arith
