-- ===== src/Kernels/Life.antt =====
-- The game of life of am-kernels/kernels/demo/src/life. A universe is laid out flat, row by row.
use triathlon.Prelude.{ℕ, zero, suc, ◌+◌, ◌-◌, ◌*◌, ◌%◌, ◌==◌, if◌then◌else◌}
use triathlon.Prelude.Store.{Store, update}

-- `if (univ[(y1 + h) % h][(x1 + w) % w]) n++` at `y1 = y + dy - 1` and `x1 = x + dx - 1`.
unfoldable pub count_cell : ℕ → ℕ → Store → ℕ → ℕ → ℕ → ℕ → ℕ
count_cell w h univ y x dy dx =
    if univ ((y + dy + h - 1) % h * w + (x + dx + w - 1) % w) == 0 then 0 else 1

-- The loop over `x1`.
unfoldable pub count_row : ℕ → ℕ → Store → ℕ → ℕ → ℕ → ℕ
count_row w h univ y x dy =
    count_cell w h univ y x dy 0 + count_cell w h univ y x dy 1 + count_cell w h univ y x dy 2

-- The loop over `y1`, and `if (univ[y][x]) n--`.
unfoldable pub neighbours : ℕ → ℕ → Store → ℕ → ℕ → ℕ
neighbours w h univ y x =
    let n = count_row w h univ y x 0 + count_row w h univ y x 1 + count_row w h univ y x 2 in
    if univ (y * w + x) == 0 then n else n - 1

unfoldable pub next_cell : ℕ → ℕ → Store → ℕ → ℕ → ℕ
next_cell w h univ y x =
    let n = neighbours w h univ y x in
    if n == 3 then 1 else if n == 2 then (if univ (y * w + x) == 0 then 0 else 1) else 0

-- The `n` cells of row `y` from `x` on, written to `new`.
unfoldable pub evolve_row : ℕ → ℕ → Store → ℕ → ℕ → ℕ → Store → Store
evolve_row w h univ y zero x new = new
evolve_row w h univ y (suc n) x new =
    evolve_row w h univ y n (x + 1) (update new (y * w + x) (next_cell w h univ y x))

-- The `n` rows from `y` on.
unfoldable pub evolve_rows : ℕ → ℕ → Store → ℕ → ℕ → Store → Store
evolve_rows w h univ zero y new = new
evolve_rows w h univ (suc n) y new = evolve_rows w h univ n (y + 1) (evolve_row w h univ y w 0 new)

-- `univ[y][x] = new[y][x]` in one row and in all of them.
unfoldable pub copy_row : ℕ → Store → ℕ → ℕ → ℕ → Store → Store
copy_row w new y zero x univ = univ
copy_row w new y (suc n) x univ =
    copy_row w new y n (x + 1) (update univ (y * w + x) (new (y * w + x)))

unfoldable pub copy_rows : ℕ → Store → ℕ → ℕ → Store → Store
copy_rows w new zero y univ = univ
copy_rows w new (suc n) y univ = copy_rows w new n (y + 1) (copy_row w new y w 0 univ)

unfoldable pub evolve : ℕ → ℕ → Store → Store → Store
evolve w h univ new_array = copy_rows w (evolve_rows w h univ h 0 new_array) h 0 univ
