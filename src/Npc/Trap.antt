-- ===== src/Npc/Trap.antt =====
-- The recognition of a breakpoint, npc/csrc/include/trap_decode.h.
use Prim.Native.Nat.{bit_and}
use triathlon.Prelude.{
  ℕ, ◌/◌, ◌%◌, ◌^◌, ◌<◌, ◌*◌, ◌+◌, Bool, true, false, ◌&&◌, ◌||◌, ◌==◌, if◌then◌else◌, ◌≡◌, arith,
  le_or_lt, inl, inr,
}
use triathlon.Prelude.Bits.{bit_and_mask, bit_and_pow}
use triathlon.Prelude.Words.{u16, ◌>>◌, truth}

unfoldable pub is_ebreak_insn_word : ℕ → ℕ → Bool
is_ebreak_insn_word insn_word pc =
    let half_shift = if truth (bit_and pc 0x2) then 16 else 0 in
    let insn16 = u16 (bit_and (insn_word >> half_shift) 0xffff) in
    if truth (bit_and pc 0x1)
    then false
    else if insn16 == 0x9002
    then true
    else if (half_shift == 0) && (insn_word == 0x00100073)
    then true
    else false

-- The instruction at the half word that `pc` points to is the 16-bit breakpoint, or `pc` points to the
-- start of the word and the word is the 32-bit one.
pub is_ebreak-halves :
    (lo hi pc : ℕ)
    → lo < 2 ^ 16
    → hi < 2 ^ 16
    → is_ebreak_insn_word (lo + hi * 2 ^ 16) pc ≡ (
        if pc % 4 == 0
        then (lo == 0x9002) || ((lo == 0x0073) && (hi == 0x0010))
        else if pc % 4 == 2
        then hi == 0x9002
        else false)
unfolding is_ebreak_insn_word
is_ebreak-halves lo hi pc ll lh =
    let odd : bit_and pc 0x1 ≡ pc % 2 = bit_and_mask 1 pc in
    let second : bit_and pc 0x2 ≡ pc / 2 % 2 * 2 = bit_and_pow pc 1 in
    rw (odd, second)
      (elim (le_or_lt (pc / 2 % 2) 1) [
        | inl upper ↦
            let one : pc / 2 % 2 ≡ 1 = omega arith in
            rw (one, bit_and_mask 16 ((lo + hi * 2 ^ 16) / 2 ^ 16)) (ground arith)
        | inr lower ↦
            let none : pc / 2 % 2 ≡ 0 = omega arith in
            rw (none, bit_and_mask 16 ((lo + hi * 2 ^ 16) / 2 ^ 0)) (ground arith)
      ])
