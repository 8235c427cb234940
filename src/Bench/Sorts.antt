-- ===== src/Bench/Sorts.antt =====
-- bubble-sort.c, select-sort.c and quick-sort.c of cpu-tests, and qsort.c of microbench. The cells
-- hold `int`s, the indices are numbers.
use triathlon.Prelude.{
  ℕ, zero, suc, ◌+◌, ◌-◌, not, Option, none, some, true, false, ltb, leb, if◌then◌else◌,
}
use triathlon.Prelude.Words.{lt_int}
use triathlon.Prelude.Store.{Store, update}
pub mod Bubble

-- `t = a[i]; a[i] = a[j]; a[j] = t`.
unfoldable pub swapped : ℕ → ℕ → Store → Store
swapped i j a = update (update a i (a j)) j (a i)

-- The inner loop of `bubble_sort`, `n` rounds from `i` on.
unfoldable pub bubble_pass : ℕ → ℕ → Store → Store
bubble_pass zero i a = a
bubble_pass (suc n) i a =
    bubble_pass n (i + 1) (if lt_int (a (i + 1)) (a i) then swapped i (i + 1) a else a)

-- The outer loop: `n` rounds are left, the first of which passes over `n - 1` pairs.
unfoldable pub bubble_rounds : ℕ → Store → Store
bubble_rounds zero a = a
bubble_rounds (suc n) a = bubble_rounds n (bubble_pass n 0 a)

-- `bubble_sort` of `n` cells, 20 in the source.
unfoldable pub bubble_sort : ℕ → Store → Store
bubble_sort n a = bubble_rounds n a

-- The inner loop of `select_sort`: the least cell of `k` and the `n` from `j` on.
unfoldable pub least : ℕ → ℕ → ℕ → Store → ℕ
least zero j k a = k
least (suc n) j k a = least n (j + 1) (if lt_int (a j) (a k) then j else k) a

-- `n` rounds from `i` on, each over the cells behind `i`.
unfoldable pub select_rounds : ℕ → ℕ → Store → Store
select_rounds zero i a = a
select_rounds (suc n) i a = select_rounds n (i + 1) (swapped i (least (suc n) (i + 1) i a) a)

unfoldable pub select_sort : ℕ → Store → Store
select_sort n a = select_rounds (n - 1) 0 a

-- `while (i < j && a[j] > pivot) j --`, with `j` at `i + n`.
unfoldable pub down_scan : ℕ → ℕ → ℕ → Store → ℕ
down_scan zero i pivot a = i
down_scan (suc n) i pivot a =
    if lt_int pivot (a (i + suc n)) then down_scan n i pivot a else i + suc n

-- `while (i < j && a[i] <= pivot) i ++`, with `j` at `i + n`.
unfoldable pub up_scan : ℕ → ℕ → ℕ → Store → ℕ
up_scan zero i pivot a = i
up_scan (suc n) i pivot a = if not (lt_int pivot (a i)) then up_scan n (i + 1) pivot a else i

-- The outer loop of `partition`: where `i` ends, and the array.
unfoldable pub partition_loop : ℕ → ℕ → ℕ → ℕ → Store → Option (ℕ × Store)
partition_loop zero i j pivot a = if ltb i j then none else some (i, a)
partition_loop (suc fuel) i j pivot a =
    let j' = down_scan (j - i) i pivot a in
    let a1 = update a i (a j') in
    let i' = up_scan (j' - i) i pivot a1 in
    let rest = partition_loop fuel i' j' pivot (update a1 j' (a1 i')) in
    if ltb i j then rest else some (i, a)

-- `a[i] = pivot`, and `i` is returned.
unfoldable pub partition : ℕ → ℕ → ℕ → Store → Option (ℕ × Store)
partition fuel p q a = elim (partition_loop fuel p q (a p) a) [
  | none ↦ none
  | some (i, a') ↦ some (i, update a' i (a p))
]

-- The upper end -1 of an empty range is 0 here, which is empty as well.
unfoldable pub quick_sort : ℕ → ℕ → ℕ → Store → Option Store
quick_sort zero p q a = none
quick_sort (suc fuel) p q a = elim (leb q p) [
  | true ↦ some a
  | false ↦ elim (partition fuel p q a) [
    | none ↦ none
    | some (m, a1) ↦ elim (quick_sort fuel p (m - 1) a1) [
      | none ↦ none
      | some a2 ↦ quick_sort fuel (m + 1) q a2
    ]
  ]
]

-- The loop of `myqsort`, `n` rounds from `j` on: the pivot's place, and the array.
unfoldable pub gather : ℕ → ℕ → ℕ → ℕ → Store → ℕ × Store
gather zero j p pivot a = (pivot, a)
gather (suc n) j p pivot a =
    let less = lt_int (a j) p in
    gather n (j + 1) p (if less then pivot + 1 else pivot)
      (if less then swapped (pivot + 1) j a else a)

unfoldable pub myqsort : ℕ → ℕ → ℕ → Store → Option Store
myqsort zero l r a = none
myqsort (suc fuel) l r a = elim (ltb l r) [
  | false ↦ some a
  | true ↦
      let (pivot, a1) = gather (r - (l + 1)) (l + 1) (a l) l a in
      elim (myqsort fuel l pivot (swapped pivot l a1)) [
        | none ↦ none
        | some a2 ↦ myqsort fuel (pivot + 1) r a2
      ]
]
