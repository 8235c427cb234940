-- ===== src/Bench/Sorts/Bubble.antt =====
-- The bubble sort of cpu-tests sorts.
use triathlon.Prelude.{
  ℕ, zero, suc, ◌+◌, ◌^◌, ◌≤◌, ◌<◌, ◌≡◌, ◌⊎◌, inl, inr, refl, sym, ap, ap₂, subst, ◌∙◌, arith, ◌==◌,
  if◌then◌else◌, Bool-cases,
}
use triathlon.Prelude.Words.{u32, lt_int}
use triathlon.Prelude.Store.{Store, update}
use triathlon.Bench.Sorts.{swapped, bubble_pass, bubble_rounds, bubble_sort}

-- An `int` with 2 ^ 31 added: the order of these is the signed order.
abbrev pub signed_key : ℕ → ℕ
signed_key x = u32 (x + 2 ^ 31)

-- The cells after one comparison.
abbrev compared : ℕ → Store → Store
compared i a = if lt_int (a (i + 1)) (a i) then swapped i (i + 1) a else a

record Compared (i : ℕ) (a : Store) : Type 0 where
  ordered : signed_key (compared i a i) ≤ signed_key (compared i a (i + 1))
  left : signed_key (a i) ≤ signed_key (compared i a (i + 1))
  right : signed_key (a (i + 1)) ≤ signed_key (compared i a (i + 1))
  old : (compared i a i ≡ a i) ⊎ (compared i a i ≡ a (i + 1))
  old_next : (compared i a (i + 1) ≡ a i) ⊎ (compared i a (i + 1) ≡ a (i + 1))
  others : (j : ℕ) → (j < i) ⊎ (i + 1 < j) → compared i a j ≡ a j

swapped_other : (i j : ℕ) (a : Store) → (j < i) ⊎ (i + 1 < j) → swapped i (i + 1) a j ≡ a j
unfolding swapped update
swapped_other i j a (inl h) = ground arith
swapped_other i j a (inr h) = ground arith

swapped_here : (i : ℕ) (a : Store) → swapped i (i + 1) a i ≡ a (i + 1)
unfolding swapped update
swapped_here i a = ground arith

swapped_next : (i : ℕ) (a : Store) → swapped i (i + 1) a (i + 1) ≡ a i
unfolding swapped update
swapped_next i a = ground arith

after_comparison : (i : ℕ) (a : Store) → Compared i a
after_comparison i a = elim (Bool-cases (lt_int (a (i + 1)) (a i))) [
  | inl e ↦ record {
    ordered = rw (e, swapped_here i a, swapped_next i a) (ground arith);
    left = rw (e, swapped_next i a) (omega arith);
    right = rw (e, swapped_next i a) (ground arith);
    old = rw (e, swapped_here i a) (inr refl);
    old_next = rw (e, swapped_next i a) (inl refl);
    others = λ j h. rw e (swapped_other i j a h);
  }
  | inr e ↦ record {
    ordered = rw e (ground arith);
    left = rw e (ground arith);
    right = rw e (omega arith);
    old = rw e (inl refl);
    old_next = rw e (inr refl);
    others = λ j h. rw e refl;
  }
]

split_at : (i j : ℕ) → i ≤ j → (j ≡ i) ⊎ (i + 1 ≤ j)
split_at i j h = elim (Bool-cases (j == i)) [
  | inl e ↦ inl (ground arith)
  | inr e ↦ inr (ground arith)
]

either_le :
    (x y z b : ℕ) → (z ≡ x) ⊎ (z ≡ y) → signed_key x ≤ b → signed_key y ≤ b → signed_key z ≤ b
either_le x y z b (inl e) h k = omega arith
either_le x y z b (inr e) h k = omega arith

-- A pass over the cells from `i` to `i + n` leaves the greatest of them last.
record Passed (n i : ℕ) (a a' : Store) : Type 0 where
  top : (j : ℕ) → i ≤ j → j ≤ i + n → signed_key (a j) ≤ signed_key (a' (i + n))
  top_after : (j : ℕ) → i ≤ j → j ≤ i + n → signed_key (a' j) ≤ signed_key (a' (i + n))
  bounded :
      (b : ℕ)
      → ((j : ℕ) → i ≤ j → j ≤ i + n → signed_key (a j) ≤ b)
      → (j : ℕ) → i ≤ j
      → j ≤ i + n
      → signed_key (a' j) ≤ b
  others : (j : ℕ) → (j < i) ⊎ (i + n < j) → a' j ≡ a j

same_cell : (a : Store) (i j : ℕ) → i ≡ j → signed_key (a i) ≤ signed_key (a j)
same_cell a i j e = omega (arith, ap a e)

outside :
    (n i j : ℕ) (a : Store)
    → ((j : ℕ)
        → (j < i + 1) ⊎ (i + 1 + n < j)
        → bubble_pass n (i + 1) (compared i a) j ≡ compared i a j)
    → ((j : ℕ) → (j < i) ⊎ (i + 1 < j) → compared i a j ≡ a j)
    → (j < i) ⊎ (i + suc n < j)
    → bubble_pass n (i + 1) (compared i a) j ≡ a j
outside n i j a p q (inl h) = p j (inl (omega arith)) ∙ q j (inl h)
outside n i j a p q (inr h) = p j (inr (omega arith)) ∙ q j (inr (omega arith))

pass_lem : (n i : ℕ) (a : Store) → Passed n i a (bubble_pass n i a)
unfolding bubble_pass
pass_lem zero i a = record {
  top = λ j lo hi. same_cell a j (i + 0) (omega arith);
  top_after = λ j lo hi. same_cell a j (i + 0) (omega arith);
  bounded = λ b h j lo hi. h j lo hi;
  others = λ j h. refl;
}
pass_lem (suc n) i a =
    let a1 : Store = compared i a in
    let a' : Store = bubble_pass n (i + 1) a1 in
    let c = after_comparison i a in
    let rest = pass_lem n (i + 1) a1 in
    let last : a' (i + 1 + n) ≡ a' (i + suc n) = ap a' (omega arith) in
    let next : signed_key (a1 (i + 1)) ≤ signed_key (a' (i + 1 + n)) =
      rest.top (i + 1) (omega arith) (omega arith) in
    let first : a' i ≡ a1 i = rest.others i (inl (omega arith)) in
    record {
      top = λ j lo hi. elim (split_at i j lo) [
        | inl e ↦ omega (arith, ap a e, c.left, next, last)
        | inr ge ↦ elim (split_at (i + 1) j ge) [
          | inl e ↦ omega (arith, ap a e, c.right, next, last)
          | inr gt ↦
              omega (arith, c.others j (inr (omega arith)), rest.top j ge (omega arith), last)
        ]
      ];
      top_after = λ j lo hi. elim (split_at i j lo) [
        | inl e ↦ omega (arith, ap a' e, first, c.ordered, next, last)
        | inr ge ↦ omega (arith, rest.top_after j ge (omega arith), last)
      ];
      bounded = λ b h j lo hi. elim (split_at i j lo) [
        | inl e ↦ omega (
          arith,
          ap a' e,
          first,
          either_le (a i) (a (i + 1)) (a1 i) b c.old (h i (omega arith) (omega arith))
              (h (i + 1) (omega arith) (omega arith)),
        )
        | inr ge ↦
            rest.bounded b
              (λ k kl kh. elim (split_at (i + 1) k kl) [
                | inl e ↦ omega (
                  arith,
                  ap a1 e,
                  either_le (a i) (a (i + 1)) (a1 (i + 1)) b c.old_next
                      (h i (omega arith) (omega arith)) (h (i + 1) (omega arith) (omega arith)),
                )
                | inr gt ↦
                    omega (arith, c.others k (inr (omega arith)), h k (omega arith) (omega arith))
              ])
              j ge (omega arith)
      ];
      others = λ j h. outside n i j a rest.others c.others h;
    }

-- What `n` rounds over the first `n` cells leave.
record Sorted (n : ℕ) (a a' : Store) : Type 0 where
  others : (j : ℕ) → n ≤ j → a' j ≡ a j
  bounded :
      (b : ℕ) → ((j : ℕ) → j < n → signed_key (a j) ≤ b) → (j : ℕ) → j < n → signed_key (a' j) ≤ b
  ordered : (j : ℕ) → j + 1 < n → signed_key (a' j) ≤ signed_key (a' (j + 1))

rounds_lem : (n : ℕ) (a : Store) → Sorted n a (bubble_rounds n a)
unfolding bubble_rounds
rounds_lem zero a = record {
  others = λ j h. refl;
  bounded = λ b h j l. absurd (omega arith);
  ordered = λ j l. absurd (omega arith);
}
rounds_lem (suc n) a =
    let a1 : Store = bubble_pass n 0 a in
    let a' : Store = bubble_rounds n a1 in
    let p = pass_lem n 0 a in
    let r = rounds_lem n a1 in
    let top_at : a1 (0 + n) ≡ a1 n = ap a1 (omega arith) in
    record {
      others = λ j h. r.others j (omega arith) ∙ p.others j (inr (omega arith));
      bounded = λ b h j l.
          let all : (k : ℕ) → k < suc n → signed_key (a1 k) ≤ b =
            λ k kl. p.bounded b (λ i lo hi. h i (omega arith)) k (omega arith) (omega arith) in
          elim (split_at j n (omega arith)) [
            | inl e ↦ omega (arith, r.others j (omega arith), all j l)
            | inr lt ↦ r.bounded b (λ k kl. all k (omega arith)) j (omega arith)
          ];
      ordered = λ j l. elim (split_at (j + 1) n (omega arith)) [
        | inl e ↦ omega (
          arith,
          r.others (j + 1) (omega arith),
          ap a1 e,
          top_at,
          r.bounded (signed_key (a1 n))
              (λ k kl. omega (arith, top_at, p.top_after k (omega arith) (omega arith))) j
              (omega arith),
        )
        | inr lt ↦ r.ordered j (omega arith)
      ];
    }

-- How often `x` stands in the first `n` cells.
pub occurrences : ℕ → ℕ → Store → ℕ
occurrences x zero a = 0
occurrences x (suc n) a = occurrences x n a + (if a n == x then 1 else 0)

occurrences-same :
    (x n : ℕ) (a b : Store) → ((j : ℕ) → j < n → a j ≡ b j) → occurrences x n a ≡ occurrences x n b
unfolding occurrences
occurrences-same x zero a b h = refl
occurrences-same x (suc n) a b h =
    ap₂ (λ c v. c + (if v == x then 1 else 0)) (occurrences-same x n a b (λ j l. h j (omega arith)))
      (h n (omega arith))

occurrences-pair :
    (x i : ℕ) (a : Store)
    → occurrences x (suc (suc i)) (swapped i (i + 1) a) ≡ occurrences x (suc (suc i)) a
unfolding occurrences
occurrences-pair x i a =
    let b : Store = swapped i (i + 1) a in
    let below : occurrences x i b ≡ occurrences x i a =
      occurrences-same x i b a (λ j l. swapped_other i j a (inl l)) in
    let here : b i ≡ a (suc i) = swapped_here i a ∙ ap a (omega arith) in
    let there : b (suc i) ≡ a i = ap b (omega arith) ∙ swapped_next i a in
    rw (below, here, there) (omega arith)

occurrences-swapped :
    (x n i : ℕ) (a : Store) → i + 1 < n → occurrences x n (swapped i (i + 1) a) ≡ occurrences x n a
unfolding occurrences
occurrences-swapped x zero i a h = absurd (omega arith)
occurrences-swapped x (suc zero) i a h = absurd (omega arith)
occurrences-swapped x (suc (suc n)) i a h = elim (split_at i n (omega arith)) [
  | inl e ↦
      subst (λ k. occurrences x (suc (suc k)) (swapped i (i + 1) a) ≡ occurrences x (suc (suc k)) a)
        (sym e) (occurrences-pair x i a)
  | inr ge ↦
      ap₂ (λ c v. c + (if v == x then 1 else 0)) (occurrences-swapped x (suc n) i a (omega arith))
        (swapped_other i (suc n) a (inr (omega arith)))
]

occurrences-compared :
    (x n i : ℕ) (a : Store) → i + 1 < n → occurrences x n (compared i a) ≡ occurrences x n a
occurrences-compared x n i a h = elim (Bool-cases (lt_int (a (i + 1)) (a i))) [
  | inl e ↦ rw e (occurrences-swapped x n i a h)
  | inr e ↦ rw e refl
]

occurrences-pass :
    (x size n i : ℕ) (a : Store)
    → i + n < size
    → occurrences x size (bubble_pass n i a) ≡ occurrences x size a
unfolding bubble_pass
occurrences-pass x size zero i a h = refl
occurrences-pass x size (suc n) i a h =
    occurrences-pass x size n (i + 1) (compared i a) (omega arith)
    ∙ occurrences-compared x size i a (omega arith)

occurrences-rounds :
    (x size n : ℕ) (a : Store)
    → n ≤ size
    → occurrences x size (bubble_rounds n a) ≡ occurrences x size a
unfolding bubble_rounds
occurrences-rounds x size zero a h = refl
occurrences-rounds x size (suc n) a h =
    occurrences-rounds x size n (bubble_pass n 0 a) (omega arith)
    ∙ occurrences-pass x size n 0 a (omega arith)

-- `bubble_sort` leaves the `n` cells in signed order, with every value as often as before, and the
-- cells past them as they were.
pub bubble_sort-sorts :
    (n j k x : ℕ) (a : Store)
    → j + 1 < n
    → n ≤ k
    → (signed_key (bubble_sort n a j) ≤ signed_key (bubble_sort n a (j + 1)))
      × (occurrences x n (bubble_sort n a) ≡ occurrences x n a)
      × (bubble_sort n a k ≡ a k)
unfolding bubble_sort
bubble_sort-sorts n j k x a h l = (
  (rounds_lem n a).ordered j h,
  occurrences-rounds x n n a (omega arith),
  (rounds_lem n a).others k l,
)
