-- ===== src/Kernels/Ant.antt =====
-- Langton's ant of am-kernels/kernels/demo/src/ant, on a board of `w` by `h`; what is printed is left
-- out.
use triathlon.Prelude.{ℕ, zero, suc, ◌+◌, ◌-◌, ◌*◌, ◌==◌, ltb, not, ◌&&◌, if◌then◌else◌}
use triathlon.Prelude.Words.{add_int, sub_int, is_neg_int}
use triathlon.Prelude.Store.{Store, update}
use triathlon.Klib.Mem.{memmove, memset}
pub mod Inside

-- `dx`, `dy`, `x` and `y` are `int`s.
pub record Ant : Type 0 where
  pub dx : ℕ
  pub dy : ℕ
  pub x : ℕ
  pub y : ℕ
  pub pix : Store

-- The turn on a black or a white cell.
unfoldable pub turned : ℕ → Ant → Ant
turned i a =
    if a.pix i == 0
    then record a { dx = a.dy; dy = sub_int 0 a.dx }
    else record a { dx = sub_int 0 a.dy; dy = a.dx }

-- The turn, `pix[i] = !pix[i]`, and the move.
unfoldable pub walked : ℕ → Ant → Ant
walked w a0 =
    let i = a0.y * w + a0.x in
    let a = turned i a0 in
    record a {
      pix = update a.pix i (if a.pix i == 0 then 1 else 0);
      x = add_int a.x a.dx;
      y = add_int a.y a.dy;
    }

-- `for (; i < w * h; i += w) pix[i] = 0`, over the `n` rows from `i` on.
unfoldable pub clear_column : ℕ → ℕ → ℕ → Store → Store
clear_column zero i w pix = pix
clear_column (suc n) i w pix = clear_column n (i + w) w (update pix i 0)

unfoldable pub scroll_x : ℕ → ℕ → Ant → Ant
scroll_x w h a =
    if is_neg_int a.x
    then record a { pix = clear_column h 0 w (memmove 1 0 (w * h - 1) a.pix); x = add_int a.x 1 }
    else if not (ltb a.x w)
    then record a {
      pix = clear_column h (w - 1) w (memmove 0 1 (w * h - 1) a.pix);
      x = sub_int a.x 1;
    }
    else a

unfoldable pub scroll_y : ℕ → ℕ → Ant → Ant
scroll_y w h a =
    if not (is_neg_int a.y) && not (ltb a.y h)
    then record a {
      pix = memset (w * (h - 1)) 0 w (memmove 0 w (w * (h - 1)) a.pix);
      y = sub_int a.y 1;
    }
    else if is_neg_int a.y
    then record a { pix = memset 0 0 w (memmove w 0 (w * (h - 1)) a.pix); y = add_int a.y 1 }
    else a

-- One round of the loop of `ant`.
unfoldable pub ant_round : ℕ → ℕ → Ant → Ant
ant_round w h a = scroll_y w h (scroll_x w h (walked w a))
