-- ===== src/Bench/Queen.antt =====
-- queen.c of microbench: `unsigned int`s as sets of columns.
use Prim.Native.Nat.{bit_and, bit_or}
use triathlon.Prelude.{ℕ, zero, suc, Option, none, some, true, false, ◌==◌}
use triathlon.Prelude.Bits.{bit_not}
use triathlon.Prelude.Words.{u32, add_int, sub_int, ◌<<◌, ◌>>◌}

-- `pos & (~pos + 1)`.
unfoldable pub lowest : ℕ → ℕ
lowest pos = bit_and pos (add_int (bit_not 32 pos) 1)

-- `dfs` and its loop over `pos`; the fuel bounds the depth and the rounds together.
unfoldable mutual
  pub dfs : ℕ → ℕ → ℕ → ℕ → ℕ → Option ℕ
  dfs zero full row ld rd = none
  dfs (suc fuel) full row ld rd = elim (row == full) [
    | true ↦ some 1
    | false ↦ dfs_loop fuel full row ld rd (bit_and full (bit_not 32 (bit_or (bit_or row ld) rd))) 0
  ]

  pub dfs_loop : ℕ → ℕ → ℕ → ℕ → ℕ → ℕ → ℕ → Option ℕ
  dfs_loop zero full row ld rd pos ans = none
  dfs_loop (suc fuel) full row ld rd pos ans = elim (pos == 0) [
    | true ↦ some ans
    | false ↦
        elim (dfs fuel full (bit_or row (lowest pos)) (u32 (bit_or ld (lowest pos) << 1))
          (bit_or rd (lowest pos) >> 1)) [
            | none ↦ none
            | some k ↦ dfs_loop fuel full row ld rd (sub_int pos (lowest pos)) (add_int ans k)
          ]
  ]

-- `FULL` for a board of `size`, and the run.
unfoldable pub bench_queen_prepare : ℕ → ℕ
bench_queen_prepare size = sub_int (u32 (1 << size)) 1

unfoldable pub bench_queen_run : ℕ → ℕ → Option ℕ
bench_queen_run fuel full = dfs fuel full 0 0 0
