-- ===== src/Kernels/Snake.antt =====
-- The state of am-kernels/kernels/snake. Coordinates are `int`s; what is drawn and the pauses are
-- left out. `rand` is a parameter: the two numbers that `create_food` takes.
use triathlon.Prelude.{
  ℕ, zero, suc, ◌+◌, ◌-◌, ◌%◌, ◌^◌, Bool, true, false, not, ◌&&◌, ◌||◌, ◌==◌, ltb, if◌then◌else◌,
}
use triathlon.Prelude.Words.{add_int, sub_int, is_neg_int}
use triathlon.Prelude.Store.{Store, update}
pub mod Moves

pub data Dir : Type 0 where
  no_dir : Dir
  up : Dir
  down : Dir
  left : Dir
  right : Dir

pub record Point : Type 0 where
  pub x : ℕ
  pub y : ℕ

pub record Dim : Type 0 where
  pub width : ℕ
  pub height : ℕ

-- MAX_LENGTH.
abbrev pub max_length : ℕ
max_length = 100

pub record Snake : Type 0 where
  pub body : ℕ → Point
  pub length : ℕ
  pub index : ℕ
  pub dead : Bool

-- `body[i] = p`.
unfoldable pub set_body : ℕ → Point → (ℕ → Point) → ℕ → Point
set_body i p body j = if j == i then p else body j

unfoldable pub create_food : ℕ → ℕ → Dim → Point
create_food rand_x rand_y size = record { x = rand_x % size.width; y = rand_y % size.height }

-- The cell behind the tail, which `clear_tail` blanks.
unfoldable pub tail_index : Snake → ℕ
tail_index s = let t = sub_int s.index s.length in if is_neg_int t then add_int t max_length else t

-- AM_KEY_LEFT, UP, RIGHT and DOWN of amdev.h.
unfoldable pub get_dir : ℕ → Dir
get_dir c =
    if c == 75
    then left
    else if c == 73
    then up
    else if c == 76
    then right
    else if c == 74
    then down
    else no_dir

unfoldable pub moved : Dir → Point → Point
moved left p = record p { x = sub_int p.x 1 }
moved down p = record p { y = add_int p.y 1 }
moved right p = record p { x = add_int p.x 1 }
moved up p = record p { y = sub_int p.y 1 }
moved no_dir p = p

unfoldable pub move_snake : Dir → Snake → Snake
move_snake dir s =
    let p = moved dir (s.body s.index) in
    let next = if s.index + 1 == max_length then 0 else s.index + 1 in
    record s { index = next; body = set_body next p s.body }

-- The loop of `is_dead` over the `n` places from the `i`th behind the head on.
unfoldable pub bites : ℕ → ℕ → Snake → Bool
bites zero i s = false
bites (suc n) i s =
    let j = sub_int s.index i in
    let k = if is_neg_int j then add_int j max_length else j in
    let head = s.body s.index in
    let rest = bites n (i + 1) s in
    if head.x == (s.body k).x && head.y == (s.body k).y then true else rest

-- For a length of 1 or more, which it never falls below.
unfoldable pub is_dead : Dim → Snake → Bool
is_dead size s =
    let head = s.body s.index in
    (head.x == 2 ^ 32 - 1)
    || (head.x == size.width)
    || (head.y == 2 ^ 32 - 1)
    || (head.y == size.height)
    || bites (s.length - 1) 1 s

unfoldable pub has_food : Snake → Point → Bool
has_food s food = (s.body s.index).x == food.x && (s.body s.index).y == food.y

-- The `switch` of `main` on the key's direction: a snake does not turn back on itself.
unfoldable pub turn : Dir → Dir → Dir
turn up dir = elim dir [ down ↦ down | no_dir ↦ up | up ↦ up | left ↦ up | right ↦ up ]
turn down dir = elim dir [ up ↦ up | no_dir ↦ down | down ↦ down | left ↦ down | right ↦ down ]
turn left dir = elim dir [ right ↦ right | no_dir ↦ left | up ↦ left | down ↦ left | left ↦ left ]
turn right dir = elim dir [
  | left ↦ left
  | no_dir ↦ right
  | up ↦ right
  | down ↦ right
  | right ↦ right
]
turn no_dir dir = dir

-- The game between two rounds of `main`'s loop.
pub record Game : Type 0 where
  pub snake : Snake
  pub dir : Dir
  pub food : Point

-- One round, with the key that `read_key` gives.
unfoldable pub game_round : ℕ → ℕ → ℕ → Dim → Game → Game
game_round key rand_x rand_y size g =
    let dir = turn (get_dir key) g.dir in
    let s = move_snake dir g.snake in
    let s' = record s { dead = is_dead size s } in
    if has_food s' g.food
    then record {
      snake = record s' { length = s'.length + 1 };
      dir = dir;
      food = create_food rand_x rand_y size;
    }
    else record { snake = s'; dir = dir; food = g.food }
