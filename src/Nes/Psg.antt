-- ===== src/Nes/Psg.antt =====
-- The joystick port, psg.c. `psg_detect_key` takes the pending keyboard events as a list.
pub mod Joystick
use triathlon.Prelude.{
  ℕ, zero, suc, ◌+◌, Bool, true, false, ◌&&◌, ◌==◌, ltb, if◌then◌else◌, List, [], ◌∷◌, get_or,
}
use Prim.Native.Nat.{bit_and}
use triathlon.Prelude.Words.{add_int, b2n}
use triathlon.Prelude.Store.{Store, update}
use triathlon.Nes.State.{Psg}

-- `MAP`, with the key codes of amdev.h; the entries that no initialiser names are 0.
abbrev pub key_map : List ℕ
key_map = 0 ∷ 49 ∷ 50 ∷ 35 ∷ 36 ∷ 30 ∷ 44 ∷ 43 ∷ 45 ∷ 255 ∷ []

unfoldable pub map_at : ℕ → ℕ
map_at p = get_or key_map p 0

unfoldable pub psgio_read : ℕ → Psg → ℕ × Psg
psgio_read address g =
    if address == 0x4016
    then (
      if ltb g.p 9 then g.key_state (map_at (add_int g.p 1)) else 0,
      record g { p = add_int g.p 1 },
    )
    else (0, g)

unfoldable pub psgio_write : ℕ → ℕ → Psg → Psg
psgio_write address value g = record g {
  p = if address == 0x4016 && (bit_and value 1 == 0 && g.prev_write == 1) then 0 else g.p;
  prev_write = bit_and value 1;
}

-- `AM_INPUT_KEYBRD_T`; the event with `AM_KEY_NONE` ends the loop and is the end of the list.
pub record KeyEvent : Type 0 where
  pub keycode : ℕ
  pub keydown : Bool

unfoldable pub psg_detect_key : List KeyEvent → Psg → Psg
psg_detect_key [] g = g
psg_detect_key (ev ∷ evs) g =
    if ev.keycode == 0
    then g
    else psg_detect_key evs
        (record g { key_state = update g.key_state ev.keycode (b2n ev.keydown) })

unfoldable pub psg_init : Psg → Psg
psg_init g = record g { key_state = update g.key_state 0 1 }
