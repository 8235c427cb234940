-- ===== src/Nes/Psg/Joystick.antt =====
-- The serial protocol of the joystick port.
use Prim.Native.Nat.{bit_and}
use triathlon.Prelude.{
  ℕ, zero, suc, ◌+◌, ◌^◌, ◌≤◌, ◌<◌, ◌≡◌, refl, ap, false, arith, ltb, List, [], ◌∷◌, map, replicate,
}
use triathlon.Prelude.Words.{add_int}
use triathlon.Nes.State.{Psg}
use triathlon.Nes.Psg.{map_at, psgio_read, psgio_write}

-- The values of `n` reads of the port in a row.
pub reads : ℕ → Psg → List ℕ
reads zero g = []
reads (suc n) g = let (v, g') = psgio_read 0x4016 g in v ∷ reads n g'

-- AM_KEY_J, K, U, I, W, S, A and D: the keys for A, B, SELECT, START and the four directions.
abbrev pub buttons : List ℕ
buttons = 49 ∷ 50 ∷ 35 ∷ 36 ∷ 30 ∷ 44 ∷ 43 ∷ 45 ∷ []

-- Writing an odd value and then an even one to the port makes the next eight reads deliver the
-- keys of A, B, SELECT, START, UP, DOWN, LEFT and RIGHT, in that order, whatever was read or
-- written before.
pub reads-strobe :
    (g : Psg) (v w : ℕ)
    → bit_and v 1 ≡ 1
    → bit_and w 1 ≡ 0
    → reads 8 (psgio_write 0x4016 w (psgio_write 0x4016 v g)) ≡ map g.key_state buttons
unfolding reads psgio_read psgio_write map_at
reads-strobe g v w h k = rw (h, k) refl

-- Once nine reads have been made every read gives 0, as far as the counter does not wrap.
pub reads-exhausted : (n : ℕ) (g : Psg) → 9 ≤ g.p → g.p + n < 2 ^ 31 → reads n g ≡ replicate n 0
unfolding reads psgio_read
reads-exhausted zero g lo hi = refl
reads-exhausted (suc n) g lo hi =
    let over : ltb g.p 9 ≡ false = ground arith in
    let next : add_int g.p 1 ≡ g.p + 1 = omega arith in
    rw (over, next)
      (ap (λ rest. 0 ∷ rest)
        (reads-exhausted n (record g { p = g.p + 1 }) (omega arith) (omega arith)))
