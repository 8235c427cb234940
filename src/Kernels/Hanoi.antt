-- ===== src/Kernels/Hanoi.antt =====
-- The towers of am-kernels/kernels/demo/src/hanoi; what is printed is left out.
use triathlon.Prelude.{ℕ, zero, suc, ◌+◌, ◌-◌, ◌==◌, if◌then◌else◌}
use triathlon.Prelude.Store.{Store, update}

-- `x` points at `cap`; an empty tower's array is all 0.
pub record Tower : Type 0 where
  pub n : ℕ
  pub cap : Store

abbrev pub Towers : Type 0
Towers = ℕ → Tower

unfoldable pub init_tower : Tower
init_tower = record { n = 0; cap = λ _. 0 }

unfoldable pub set_tower : ℕ → Tower → Towers → Towers
set_tower i v t j = if j == i then v else t j

unfoldable pub add_disk : ℕ → ℕ → Towers → Towers
add_disk i d t = set_tower i (record { n = (t i).n + 1; cap = update (t i).cap (t i).n d }) t

-- From a tower that is not empty.
unfoldable pub remove_disk : ℕ → Towers → ℕ × Towers
remove_disk i t = ((t i).cap ((t i).n - 1), set_tower i (record (t i) { n = (t i).n - 1 }) t)

unfoldable pub move : ℕ → ℕ → ℕ → ℕ → Towers → Towers
move zero from to via t = t
move (suc n) from to via t =
    let (d, t') = remove_disk from (move n from via to t) in move n via to from (add_disk to d t')

-- `for (c = H; c; c--) add_disk(0, c)`, from `c` on.
unfoldable pub add_disks : ℕ → Towers → Towers
add_disks zero t = t
add_disks (suc c) t = add_disks c (add_disk 0 (suc c) t)

unfoldable pub hanoi : Towers
hanoi = move 7 0 2 1 (add_disks 7 (λ _. init_tower))
