-- ===== src/Kernels/Snake/Moves.antt =====
-- What a round of the game does to the snake.
use triathlon.Prelude.{
  ℕ, ◌+◌, ◌%◌, ◌^◌, ◌&&◌, ◌<◌, ◌≡◌, ◌≢◌, refl, sym, ap, subst, ==_iff, ◌∙◌, arith, Bool, ==_refl,
  ◌==◌, if◌then◌else◌, true, false, Bool-cases, inl, inr,
}
use triathlon.Kernels.Snake.{
  Dir, no_dir, up, down, left, right, Point, Dim, Snake, set_body, moved, move_snake, Game,
  game_round, turn, get_dir, has_food, is_dead,
}

-- One direction is the other turned round.
abbrev pub is_opposite : Dir → Dir → Bool
is_opposite up down = true
is_opposite down up = true
is_opposite left right = true
is_opposite right left = true
is_opposite _ _ = false

-- The codes of the four keys.
pub data Presses : ℕ → Dir → Type 0 where
  press_up : Presses 73 up
  press_down : Presses 74 down
  press_left : Presses 75 left
  press_right : Presses 76 right

-- The direction after a key: that of the key, unless it is the opposite or the key is another one.
pub data Steers (key : ℕ) (d : Dir) : Dir → Type 0 where
  turns : {k : Dir} → Presses key k → is_opposite k d ≡ false → Steers key d k
  refuses : {k : Dir} → Presses key k → is_opposite k d ≡ true → Steers key d d
  ignores : key ≢ 73 → key ≢ 74 → key ≢ 75 → key ≢ 76 → Steers key d d

-- `q` is the neighbour of `p`, where y grows downwards and the coordinates have 32 bits.
abbrev pub Stepped : Dir → Point → Point → Type 0
Stepped no_dir p q = (q.x ≡ p.x) × (q.y ≡ p.y)
Stepped up p q = (q.x ≡ p.x) × ((q.y + 1) % 2 ^ 32 ≡ p.y % 2 ^ 32)
Stepped down p q = (q.x ≡ p.x) × (q.y ≡ (p.y + 1) % 2 ^ 32)
Stepped left p q = ((q.x + 1) % 2 ^ 32 ≡ p.x % 2 ^ 32) × (q.y ≡ p.y)
Stepped right p q = (q.x ≡ (p.x + 1) % 2 ^ 32) × (q.y ≡ p.y)

abbrev pub head_of : Game → Point
head_of g = g.snake.body g.snake.index

-- A round from `g` to `g'` with a key: the ring's index goes to the next place of the array, round its
-- end; the key steers; the new head stands there, one step on from the old one and not back; no other
-- place of the array changes; and the snake is one longer exactly when the head reaches the food.
pub record Moves (key : ℕ) (g g' : Game) : Type 0 where
  pub place : g'.snake.index ≡ (g.snake.index + 1) % 100
  pub steers : Steers key g.dir g'.dir
  pub head : Stepped g'.dir (head_of g) (head_of g')
  pub onward : is_opposite g'.dir g.dir ≡ false
  pub others : (j : ℕ) → (j == g'.snake.index) ≡ false → g'.snake.body j ≡ g.snake.body j
  pub grows :
      g'.snake.length
      ≡ g.snake.length + (if (head_of g').x == g.food.x && (head_of g').y == g.food.y then 1 else 0)

turn-is_opposite : (k d : Dir) → d ≢ no_dir → is_opposite (turn k d) d ≡ false
unfolding turn
turn-is_opposite k no_dir h = absurd (h refl)
turn-is_opposite no_dir up h = refl
turn-is_opposite up up h = refl
turn-is_opposite down up h = refl
turn-is_opposite left up h = refl
turn-is_opposite right up h = refl
turn-is_opposite no_dir down h = refl
turn-is_opposite up down h = refl
turn-is_opposite down down h = refl
turn-is_opposite left down h = refl
turn-is_opposite right down h = refl
turn-is_opposite no_dir left h = refl
turn-is_opposite up left h = refl
turn-is_opposite down left h = refl
turn-is_opposite left left h = refl
turn-is_opposite right left h = refl
turn-is_opposite no_dir right h = refl
turn-is_opposite up right h = refl
turn-is_opposite down right h = refl
turn-is_opposite left right h = refl
turn-is_opposite right right h = refl

turn_lem : (k d : Dir) → k ≢ no_dir → turn k d ≡ (if is_opposite k d then d else k)
unfolding turn
turn_lem no_dir d h = absurd (h refl)
turn_lem up no_dir h = refl
turn_lem up up h = refl
turn_lem up down h = refl
turn_lem up left h = refl
turn_lem up right h = refl
turn_lem down no_dir h = refl
turn_lem down up h = refl
turn_lem down down h = refl
turn_lem down left h = refl
turn_lem down right h = refl
turn_lem left no_dir h = refl
turn_lem left up h = refl
turn_lem left down h = refl
turn_lem left left h = refl
turn_lem left right h = refl
turn_lem right no_dir h = refl
turn_lem right up h = refl
turn_lem right down h = refl
turn_lem right left h = refl
turn_lem right right h = refl

-- A key of a direction steers as it says.
pressed-Steers : (key : ℕ) (k d : Dir) → k ≢ no_dir → Presses key k → Steers key d (turn k d)
pressed-Steers key k d h pressed = elim (Bool-cases (is_opposite k d)) [
  | inl back ↦ rw (turn_lem k d h, back) (refuses pressed back)
  | inr on ↦ rw (turn_lem k d h, on) (turns pressed on)
]

steer_by :
    (key n : ℕ) (k d : Dir) → k ≢ no_dir → (key == n) ≡ true → Presses n k → Steers key d (turn k d)
steer_by key n k d h e pressed =
    pressed-Steers key k d h (subst (λ i. Presses i k) (sym ((==_iff key n).0 e)) pressed)

key-Steers : (key : ℕ) (d : Dir) → Steers key d (turn (get_dir key) d)
unfolding get_dir turn
key-Steers key d = elim (Bool-cases (key == 75)) [
  | inl e ↦ rw e (steer_by key 75 left d (λ x. ground arith) e press_left)
  | inr n75 ↦ elim (Bool-cases (key == 73)) [
    | inl e ↦ rw (n75, e) (steer_by key 73 up d (λ x. ground arith) e press_up)
    | inr n73 ↦ elim (Bool-cases (key == 76)) [
      | inl e ↦ rw (n75, n73, e) (steer_by key 76 right d (λ x. ground arith) e press_right)
      | inr n76 ↦ elim (Bool-cases (key == 74)) [
        | inl e ↦ rw (n75, n73, n76, e) (steer_by key 74 down d (λ x. ground arith) e press_down)
        | inr n74 ↦
            rw (n75, n73, n76, n74)
              (ignores (λ e. ground arith) (λ e. ground arith) (λ e. ground arith)
                (λ e. ground arith))
      ]
    ]
  ]
]

moved-Stepped : (d : Dir) (p : Point) → Stepped d p (moved d p)
unfolding moved
moved-Stepped no_dir p = (refl, refl)
moved-Stepped up p = (refl, omega arith)
moved-Stepped down p = (refl, refl)
moved-Stepped left p = (omega arith, refl)
moved-Stepped right p = (refl, refl)

set_body_at : (i : ℕ) (p : Point) (body : ℕ → Point) → set_body i p body i ≡ p
unfolding set_body
set_body_at i p body = rw (==_refl i) refl

-- What stays the same whether the snake eats or not.
round_lem :
    (key rand_x rand_y : ℕ) (size : Dim) (g : Game)
    → let g' = game_round key rand_x rand_y size g in
      let s = move_snake (turn (get_dir key) g.dir) g.snake in
      (g'.snake.index ≡ s.index)
      × (g'.snake.body ≡ s.body)
      × (g'.dir ≡ turn (get_dir key) g.dir)
      × (g'.snake.length ≡ g.snake.length + (if has_food s g.food then 1 else 0))
unfolding game_round has_food move_snake
round_lem key rand_x rand_y size g =
    let s : Snake = move_snake (turn (get_dir key) g.dir) g.snake in
    let s' : Snake = record s { dead = is_dead size s } in
    elim (Bool-cases (has_food s' g.food)) [
      | inl e ↦ rw (e, game_round) (refl, refl, refl, refl)
      | inr e ↦ rw (e, game_round) (refl, refl, refl, omega arith)
    ]

move_snake-body :
    (d : Dir) (s : Snake) (j : ℕ)
    → (j == (move_snake d s).index) ≡ false
    → (move_snake d s).body j ≡ s.body j
unfolding move_snake set_body
move_snake-body d s j h = rw h refl

move_snake-head :
    (d : Dir) (s : Snake) → (move_snake d s).body (move_snake d s).index ≡ moved d (s.body s.index)
unfolding move_snake
move_snake-head d s = set_body_at _ _ s.body

move_snake-place :
    (d : Dir) (s : Snake) → s.index < 100 → (move_snake d s).index ≡ (s.index + 1) % 100
unfolding move_snake
move_snake-place d s h = ground arith

-- Every round, whatever the key and whether the snake eats, from an index inside the array and a
-- direction: the ring's index goes to the next place, round the end of the array; the direction is
-- the key's, unless that is the opposite one or the key is none of the four; the new head stands at
-- that place, one cell on from the old head in the direction, and not back; no other place of the
-- array changes; and the snake is one longer if its head is on the food, else as long as before.
pub game_round-Moves :
    (key rand_x rand_y : ℕ) (size : Dim) (g : Game)
    → g.snake.index < 100
    → g.dir ≢ no_dir
    → Moves key g (game_round key rand_x rand_y size g)
unfolding has_food
game_round-Moves key rand_x rand_y size g h d =
    let same = round_lem key rand_x rand_y size g in
    let way : Dir = turn (get_dir key) g.dir in
    record {
      place = same.0 ∙ move_snake-place way g.snake h;
      steers = rw (same.2) (key-Steers key g.dir);
      head =
          rw (same.0, same.1, same.2, move_snake-head way g.snake) (moved-Stepped way (head_of g));
      others = λ j e.
          ap (λ (b : ℕ → Point). b j) (same.1)
          ∙ move_snake-body way g.snake j (ap (λ i. j == i) (sym (same.0)) ∙ e);
      onward = rw (same.2) (turn-is_opposite (get_dir key) g.dir d);
      grows = rw (same.0, same.1) (same.3);
    }
