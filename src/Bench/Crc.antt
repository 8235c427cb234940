-- ===== src/Bench/Crc.antt =====
-- crc32.c of cpu-tests.
use Prim.Native.Nat.{bit_and, bit_xor}
use triathlon.Prelude.{ℕ, zero, suc, ◌+◌, ◌==◌, if◌then◌else◌}
use triathlon.Prelude.Bits.{bit_not}
use triathlon.Prelude.Words.{u8, ◌>>◌}
use triathlon.Prelude.Store.{Store}

-- The loop over the digits of one entry of the table.
unfoldable pub remainder : ℕ → ℕ → ℕ
remainder zero rem = rem
remainder (suc n) rem =
    remainder n (if bit_and rem 1 == 0 then rem >> 1 else bit_xor (rem >> 1) 0xedb88320)

-- The table once it has been filled.
unfoldable pub table : ℕ → ℕ
table i = remainder 8 i

-- The loop over the `n` bytes from `p` on.
unfoldable pub crc_bytes : ℕ → ℕ → ℕ → Store → ℕ
crc_bytes zero p crc m = crc
crc_bytes (suc n) p crc m =
    crc_bytes n (p + 1) (bit_xor (crc >> 8) (table (bit_xor (bit_and crc 0xff) (u8 (m p))))) m

unfoldable pub rc_crc32 : ℕ → ℕ → ℕ → Store → ℕ
rc_crc32 crc buf len m = bit_not 32 (crc_bytes len buf (bit_not 32 crc) m)
