-- ===== src/Nes/Common.antt =====
-- The bit operations of common.c.
pub mod Digits
use Prim.Native.Nat.{bit_and, bit_or, bit_xor}
use triathlon.Prelude.{ℕ, ◌^◌, Bool, if◌then◌else◌}
use triathlon.Prelude.Bits.{bit_not}
use triathlon.Prelude.Words.{u8, u16, u32, truth}

unfoldable pub common_bit_set : ℕ → ℕ → Bool
common_bit_set value position = truth (bit_and value (2 ^ position))

unfoldable pub common_set_bitb : ℕ → ℕ → ℕ
common_set_bitb variable position = u8 (bit_or variable (2 ^ position))

-- `~` acts on the 64 bits of a `long`.
unfoldable pub common_unset_bitb : ℕ → ℕ → ℕ
common_unset_bitb variable position = u8 (bit_and variable (bit_not 64 (2 ^ position)))

unfoldable pub common_toggle_bitb : ℕ → ℕ → ℕ
common_toggle_bitb variable position = u8 (bit_xor variable (2 ^ position))

unfoldable pub common_modify_bitb : ℕ → ℕ → Bool → ℕ
unfolding common_set_bitb common_unset_bitb
common_modify_bitb variable position set =
    if set then common_set_bitb variable position else common_unset_bitb variable position

unfoldable pub common_set_bitw : ℕ → ℕ → ℕ
common_set_bitw variable position = u16 (bit_or variable (2 ^ position))

unfoldable pub common_unset_bitw : ℕ → ℕ → ℕ
common_unset_bitw variable position = u16 (bit_and variable (bit_not 64 (2 ^ position)))

unfoldable pub common_toggle_bitw : ℕ → ℕ → ℕ
common_toggle_bitw variable position = u16 (bit_xor variable (2 ^ position))

unfoldable pub common_modify_bitw : ℕ → ℕ → Bool → ℕ
unfolding common_set_bitw common_unset_bitw
common_modify_bitw variable position set =
    if set then common_set_bitw variable position else common_unset_bitw variable position

unfoldable pub common_set_bitd : ℕ → ℕ → ℕ
common_set_bitd variable position = u32 (bit_or variable (2 ^ position))

unfoldable pub common_unset_bitd : ℕ → ℕ → ℕ
common_unset_bitd variable position = u32 (bit_and variable (bit_not 64 (2 ^ position)))

unfoldable pub common_toggle_bitd : ℕ → ℕ → ℕ
common_toggle_bitd variable position = u32 (bit_xor variable (2 ^ position))

unfoldable pub common_modify_bitd : ℕ → ℕ → Bool → ℕ
unfolding common_set_bitd common_unset_bitd
common_modify_bitd variable position set =
    if set then common_set_bitd variable position else common_unset_bitd variable position
