-- ===== src/Bench/Sieve.antt =====
-- sieve.c of microbench.
use Prim.Native.Nat.{bit_and}
use triathlon.Prelude.{ℕ, zero, suc, ◌+◌, ◌-◌, ◌*◌, ◌/◌, ◌==◌, leb, if◌then◌else◌}
use triathlon.Prelude.Bits.{bit_not}
use triathlon.Prelude.Words.{u32, ◌<<◌, ◌>>◌}
use triathlon.Prelude.Store.{Store, update}

unfoldable pub get : ℕ → Store → ℕ
get n primes = bit_and (primes (n >> 5) >> bit_and n 31) 1

-- `1ul` has 64 bits; the store keeps 32.
unfoldable pub clear : ℕ → Store → Store
clear n primes =
    update primes (n >> 5) (u32 (bit_and (primes (n >> 5)) (bit_not 64 (1 << bit_and n 31))))

-- The loop of `bench_sieve_prepare`, `n` rounds from `i` on.
unfoldable pub set_all : ℕ → ℕ → Store → Store
set_all zero i primes = primes
set_all (suc n) i primes = set_all n (i + 1) (update primes i 0xffffffff)

unfoldable pub bench_sieve_prepare : ℕ → Store → Store
bench_sieve_prepare size primes = set_all (size / 32 + 1) 0 primes

-- `for (; j <= N; j += i) clear(j)`, on fuel; `size` is N.
unfoldable pub clear_multiples : ℕ → ℕ → ℕ → ℕ → Store → Store
clear_multiples zero i j size primes = primes
clear_multiples (suc fuel) i j size primes =
    let rest = clear_multiples fuel i (j + i) size (clear j primes) in
    if leb j size then rest else primes

-- The loop over `i`, on fuel; both take at most `size` rounds.
unfoldable pub sieve_from : ℕ → ℕ → ℕ → Store → Store
sieve_from zero i size primes = primes
sieve_from (suc fuel) i size primes =
    let primes' =
      if get i primes == 0 then primes else clear_multiples size i (i + i) size primes in
    let rest = sieve_from fuel (i + 1) size primes' in if leb (i * i) size then rest else primes

-- The first loop of `bench_sieve_run`, which returns at a cleared digit, over `n` numbers from `i`.
unfoldable pub all_set : ℕ → ℕ → Store → ℕ
all_set zero i primes = 1
all_set (suc n) i primes =
    let rest = all_set n (i + 1) primes in if get i primes == 0 then 0 else rest

unfoldable pub count_set : ℕ → ℕ → Store → ℕ
count_set zero i primes = 0
count_set (suc n) i primes = get i primes + count_set n (i + 1) primes

-- The new `primes` and `ans`, which stays when the first loop returns.
unfoldable pub bench_sieve_run : ℕ → ℕ → Store → Store × ℕ
bench_sieve_run size ans primes =
    let sieved = sieve_from size 2 size primes in
    if all_set size 1 primes == 0 then (primes, ans) else (sieved, count_set (size - 1) 2 sieved)
