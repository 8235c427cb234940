-- ===== src/Kernels/Tests.antt =====
-- The theorems on the kernels at concrete states.
use triathlon.Prelude.{ℕ, zero, suc, ◌+◌, ◌<◌, ◌≡◌, ◌≢◌, refl, arith, none, some, [], ◌∷◌, false}
use triathlon.Kernels.Threads.{Tasks, interrupts}
use triathlon.Kernels.Threads.Apart.{Own, FromProcessors, Apart, interrupts-Apart}
use triathlon.Kernels.Snake.{no_dir, right, Dim, Game, game_round}
use triathlon.Kernels.Snake.Moves.{Moves, game_round-Moves}
use triathlon.Kernels.Hanoi.{hanoi, move, add_disks, add_disk, remove_disk, set_tower, init_tower}

-- Nothing runs yet, on two processors.
abbrev idle : Tasks
idle = record { currents = λ _. none; context = λ t. 100 + t }

idle-Own : Own 2 idle
idle-Own = record { own = λ c t e. absurd (none_running e) }
  where
    none_running : {t : ℕ} → none ≢ some t
    none_running e = ground arith

from-FromProcessors : FromProcessors 2 ((0, 7) ∷ (1, 8) ∷ (0, 9) ∷ [])
from-FromProcessors = omega arith

interrupts-Apart_example : Apart 2 (interrupts 5 2 ((0, 7) ∷ (1, 8) ∷ (0, 9) ∷ []) idle)
interrupts-Apart_example =
    interrupts-Apart 5 2 ((0, 7) ∷ (1, 8) ∷ (0, 9) ∷ []) idle (omega arith) from-FromProcessors
      idle-Own

abbrev game : Game
game = record {
  snake = record {
    body = λ i. record { x = 10; y = 10 + i };
    length = 2;
    index = 99;
    dead = false;
  };
  dir = right;
  food = record { x = 3; y = 3 };
}

abbrev board_size : Dim
board_size = record { width = 78; height = 58 }

heads_right : right ≢ no_dir
heads_right e = ground arith

game_round-Moves_example : Moves 73 game (game_round 73 1 2 board_size game)
game_round-Moves_example = game_round-Moves 73 1 2 board_size game (omega arith) heads_right

-- Seven disks end on the third tower, the largest lowest.
hanoi_runs : ((hanoi 2).n ≡ 7) × ((hanoi 2).cap 0 ≡ 7) × ((hanoi 2).cap 6 ≡ 1) × ((hanoi 0).n ≡ 0)
unfolding hanoi move add_disks add_disk remove_disk set_tower init_tower
    triathlon.Prelude.Store.update
hanoi_runs = (refl, refl, refl, refl)
