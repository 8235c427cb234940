-- ===== src/Nes/Cpu/Flags.antt =====
-- The digits of the status register after the macros of cpu.c.
use triathlon.Prelude.{ℕ, zero, suc, ◌<◌, ◌≡◌, arith, ◌==◌, if◌then◌else◌, min, max}
use triathlon.Prelude.Bits.{bit, bit-lt, bit-and, bit-or}
use triathlon.Prelude.Words.{b2n}
use triathlon.Nes.Cpu.{cpu_zn_flag_table, zn_flags}

zn_digit :
    (j p v : ℕ)
    → bit j (zn_flags p v) ≡ max (min (bit j p) (bit j 0xffff_ff7d)) (bit j (cpu_zn_flag_table v))
unfolding zn_flags
zn_digit j p v = rw (bit-or, bit-and)

-- The zero and negative flags follow the value, and the six other flags stay.
pub bit-zn_flags :
    (j p v : ℕ)
    → j < 8
    → v < 256
    → bit j (zn_flags p v) ≡ (if j == 1 then b2n (v == 0) else if j == 7 then bit 7 v else bit j p)
unfolding cpu_zn_flag_table
bit-zn_flags zero p v h k = ground (arith, zn_digit 0 p v)
bit-zn_flags (suc zero) p v h k = ground (arith, zn_digit 1 p v, bit-lt 1 p)
bit-zn_flags (suc (suc zero)) p v h k = ground (arith, zn_digit 2 p v)
bit-zn_flags (suc (suc (suc zero))) p v h k = ground (arith, zn_digit 3 p v)
bit-zn_flags (suc (suc (suc (suc zero)))) p v h k = ground (arith, zn_digit 4 p v)
bit-zn_flags (suc (suc (suc (suc (suc zero))))) p v h k = ground (arith, zn_digit 5 p v)
bit-zn_flags (suc (suc (suc (suc (suc (suc zero)))))) p v h k = ground (arith, zn_digit 6 p v)
bit-zn_flags (suc (suc (suc (suc (suc (suc (suc zero))))))) p v h k = ground (arith, zn_digit 7 p v)
bit-zn_flags (suc (suc (suc (suc (suc (suc (suc (suc j)))))))) p v h k = absurd (omega arith)
