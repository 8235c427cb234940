-- ===== src/Kernels/Ant/Inside.antt =====
-- The ant stays on the board.
use triathlon.Prelude.{
  ℕ, zero, suc, ◌+◌, ◌-◌, ◌*◌, ◌^◌, ◌≤◌, ◌<◌, ◌≡◌, refl, arith, ◌==◌, ltb, true, false, Bool-cases,
  inl, inr, ◌⊎◌,
}
use triathlon.Prelude.Words.{add_int, sub_int, is_neg_int}
use triathlon.Kernels.Ant.{Ant, turned, walked, scroll_x, scroll_y, ant_round}

-- One of the four directions.
pub data Heading : ℕ → ℕ → Type 0 where
  south : Heading 0 1
  north : Heading 0 (2 ^ 32 - 1)
  east : Heading 1 0
  west : Heading (2 ^ 32 - 1) 0

-- The ant stands on a cell of the board and heads for a neighbour.
pub record OnBoard (w h : ℕ) (a : Ant) : Type 0 where
  pub column : a.x < w
  pub row : a.y < h
  pub heading : Heading a.dx a.dy

left_of : {dx dy : ℕ} → Heading dx dy → Heading dy (sub_int 0 dx)
left_of south = east
left_of north = west
left_of east = north
left_of west = south

right_of : {dx dy : ℕ} → Heading dx dy → Heading (sub_int 0 dy) dx
right_of south = west
right_of north = east
right_of east = south
right_of west = north

-- At most one step off a board of `n` cells.
abbrev Near : ℕ → ℕ → Type 0
Near n x = (x ≤ n) ⊎ (x ≡ 2 ^ 32 - 1)

scroll_x-inside : (w h : ℕ) (a : Ant) → 0 < w → w < 2 ^ 31 → Near w a.x → (scroll_x w h a).x < w
unfolding scroll_x
scroll_x-inside w h a lo hi (inl near) =
    let whole : is_neg_int a.x ≡ false = ground arith in
    elim (Bool-cases (ltb a.x w)) [
      | inl e ↦ rw (whole, e, scroll_x) (ground arith)
      | inr e ↦ rw (whole, e, scroll_x) (ground arith)
    ]
scroll_x-inside w h a lo hi (inr off) =
    let below : is_neg_int a.x ≡ true = ground arith in
    let back : add_int a.x 1 ≡ 0 = omega arith in rw (below, scroll_x) (rw back lo)

scroll_y-inside : (w h : ℕ) (a : Ant) → 0 < h → h < 2 ^ 31 → Near h a.y → (scroll_y w h a).y < h
unfolding scroll_y
scroll_y-inside w h a lo hi (inl near) =
    let whole : is_neg_int a.y ≡ false = ground arith in
    elim (Bool-cases (ltb a.y h)) [
      | inl e ↦ rw (whole, e, scroll_y) (ground arith)
      | inr e ↦ rw (whole, e, scroll_y) (ground arith)
    ]
scroll_y-inside w h a lo hi (inr off) =
    let below : is_neg_int a.y ≡ true = ground arith in
    let back : add_int a.y 1 ≡ 0 = omega arith in rw (below, scroll_y) (rw back lo)

back_one : (n x : ℕ) → x < n → n < 2 ^ 31 → Near n (add_int x (2 ^ 32 - 1))
back_one n zero h l = inr (omega arith)
back_one n (suc x) h l = inl (omega arith)

step_x : (w x dx dy : ℕ) → x < w → w < 2 ^ 31 → Heading dx dy → Near w (add_int x dx)
step_x w x _ _ h l south = inl (omega arith)
step_x w x _ _ h l north = inl (omega arith)
step_x w x _ _ h l east = inl (omega arith)
step_x w x _ _ h l west = back_one w x h l

step_y : (h y dx dy : ℕ) → y < h → h < 2 ^ 31 → Heading dx dy → Near h (add_int y dy)
step_y h y _ _ k l south = inl (omega arith)
step_y h y _ _ k l north = back_one h y k l
step_y h y _ _ k l east = inl (omega arith)
step_y h y _ _ k l west = inl (omega arith)

turned-Heading : (i : ℕ) (a : Ant) → Heading a.dx a.dy → Heading (turned i a).dx (turned i a).dy
unfolding turned
turned-Heading i a d = elim (Bool-cases (a.pix i == 0)) [
  | inl e ↦ rw (e, turned) (left_of d)
  | inr e ↦ rw (e, turned) (right_of d)
]

turned-place : (i : ℕ) (a : Ant) → ((turned i a).x ≡ a.x) × ((turned i a).y ≡ a.y)
unfolding turned
turned-place i a = elim (Bool-cases (a.pix i == 0)) [
  | inl e ↦ rw (e, turned) (refl, refl)
  | inr e ↦ rw (e, turned) (refl, refl)
]

-- What a walk leaves: a place at most one step off the board, and a direction.
record Walked (w h : ℕ) (a : Ant) : Type 0 where
  near_x : Near w a.x
  near_y : Near h a.y
  heading : Heading a.dx a.dy

walked-Walked :
    (w h : ℕ) (a : Ant) → w < 2 ^ 31 → h < 2 ^ 31 → OnBoard w h a → Walked w h (walked w a)
unfolding walked
walked-Walked w h a l k b =
    let i : ℕ = a.y * w + a.x in
    let place = turned-place i a in
    record {
      near_x = rw (place.0) (step_x w a.x _ _ b.column l (turned-Heading i a b.heading));
      near_y = rw (place.1) (step_y h a.y _ _ b.row k (turned-Heading i a b.heading));
      heading = turned-Heading i a b.heading;
    }

scroll_x-rest :
    (w h : ℕ) (a : Ant)
    → ((scroll_x w h a).y ≡ a.y) × ((scroll_x w h a).dx ≡ a.dx) × ((scroll_x w h a).dy ≡ a.dy)
unfolding scroll_x
scroll_x-rest w h a = elim (Bool-cases (is_neg_int a.x)) [
  | inl e ↦ rw (e, scroll_x) (refl, refl, refl)
  | inr e ↦ elim (Bool-cases (ltb a.x w)) [
    | inl f ↦ rw (e, f, scroll_x) (refl, refl, refl)
    | inr f ↦ rw (e, f, scroll_x) (refl, refl, refl)
  ]
]

scroll_y-rest :
    (w h : ℕ) (a : Ant)
    → ((scroll_y w h a).x ≡ a.x) × ((scroll_y w h a).dx ≡ a.dx) × ((scroll_y w h a).dy ≡ a.dy)
unfolding scroll_y
scroll_y-rest w h a = elim (Bool-cases (is_neg_int a.y)) [
  | inl e ↦ rw (e, scroll_y) (refl, refl, refl)
  | inr e ↦ elim (Bool-cases (ltb a.y h)) [
    | inl f ↦ rw (e, f, scroll_y) (refl, refl, refl)
    | inr f ↦ rw (e, f, scroll_y) (refl, refl, refl)
  ]
]

-- A round leaves the ant on the board, which scrolls where it would step off, with one of the four
-- directions. The board must have cells, and fewer than 2 ^ 31 a side.
pub ant_round-OnBoard :
    (w h : ℕ) (a : Ant) → w < 2 ^ 31 → h < 2 ^ 31 → OnBoard w h a → OnBoard w h (ant_round w h a)
unfolding ant_round
ant_round-OnBoard w h a l k b =
    let s = walked-Walked w h a l k b in
    let across = scroll_x-rest w h (walked w a) in
    let down = scroll_y-rest w h (scroll_x w h (walked w a)) in
    record {
      column = rw (down.0) (scroll_x-inside w h (walked w a) (omega (arith, b.column)) l s.near_x);
      row =
          scroll_y-inside w h (scroll_x w h (walked w a)) (omega (arith, b.row)) k
            (rw (across.0) s.near_y);
      heading = rw (down.1, down.2, across.1, across.2) s.heading;
    }
