-- ===== src/Bench/Tests.antt =====
-- Runs of the algorithms, with the answers that the sources expect.
use triathlon.Prelude.{◌≤◌, ◌≡◌, refl, arith, some, [], ◌∷◌, get_or}
use triathlon.Prelude.Store.{Store}
use triathlon.Bench.Queen.{bench_queen_run, bench_queen_prepare, dfs, lowest}
use triathlon.Bench.Sorts.{bubble_sort}
use triathlon.Bench.Sorts.Bubble.{signed_key, occurrences, bubble_sort-sorts}
use triathlon.Bench.Crc.{rc_crc32, crc_bytes, table, remainder}

-- Four queens have two places.
four_queens : bench_queen_run 40 (bench_queen_prepare 4) ≡ some 2
unfolding bench_queen_run bench_queen_prepare dfs lowest
four_queens = refl

-- "The q".
abbrev start_of_text : Store
start_of_text i = get_or (84 ∷ 104 ∷ 101 ∷ 32 ∷ 113 ∷ []) i 0

crc_runs : rc_crc32 0 0 5 start_of_text ≡ 0x9b92d39
unfolding rc_crc32 crc_bytes table remainder
crc_runs = refl

-- 5, -1, 3 and 0, then 7.
abbrev numbers : Store
numbers i = get_or (5 ∷ 0xffffffff ∷ 3 ∷ 0 ∷ 7 ∷ []) i 0

bubble_sort-sorts_example :
    (signed_key (bubble_sort 4 numbers 0) ≤ signed_key (bubble_sort 4 numbers 1))
    × (occurrences 3 4 (bubble_sort 4 numbers) ≡ occurrences 3 4 numbers)
    × (bubble_sort 4 numbers 4 ≡ 7)
bubble_sort-sorts_example = bubble_sort-sorts 4 0 4 3 numbers (omega arith) (omega arith)
