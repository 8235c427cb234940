-- ===== src/Nes/Memory/Stack.antt =====
-- What is pushed is popped again, and where it lies.
use triathlon.Prelude.{ℕ, ◌+◌, ◌/◌, ◌%◌, ◌<◌, ◌≡◌, refl, ◌∙◌, arith}
use triathlon.Prelude.Bits.{bit_and_mask}
use triathlon.Prelude.Words.{u8, u16, ◌<<◌, ◌>>◌}
use triathlon.Prelude.Store.{Store, update, update_self, update_ne}
use triathlon.Nes.State.{Machine}
use triathlon.Nes.Memory.{
  memory_readw, memory_writew, set_sp, cpu_stack_pushb, cpu_stack_pushw, cpu_stack_popb,
  cpu_stack_popw,
}
use triathlon.Nes.Memory.Ram.{readb-ram, writeb-ram}

-- Pushing a byte writes it at 0x100 + SP and moves SP down, around the page.
pub pushb_lem :
    (value : ℕ) (s : Machine)
    → s.cpu.sp < 256
    → cpu_stack_pushb value s ≡ record s {
      cpu = record (s.cpu) { sp = u8 (s.cpu.sp + 255) };
      cpu_ram = update s.cpu_ram (0x100 + s.cpu.sp) (u8 value);
    }
unfolding cpu_stack_pushb
pushb_lem value s h =
    let at : (0x100 + s.cpu.sp) % 0x800 ≡ 0x100 + s.cpu.sp = omega arith in
    rw (writeb-ram (0x100 + s.cpu.sp) value (set_sp (s.cpu.sp + 255) s) (omega arith)) (rw at refl)

pub popb_lem :
    (s : Machine)
    → s.cpu.sp < 256
    → cpu_stack_popb s ≡ (
      s.cpu_ram (0x100 + u8 (s.cpu.sp + 1)),
      record s { cpu = record (s.cpu) { sp = u8 (s.cpu.sp + 1) } },
    )
unfolding cpu_stack_popb
popb_lem s h =
    let at : (0x100 + u8 (s.cpu.sp + 1)) % 0x800 ≡ 0x100 + u8 (s.cpu.sp + 1) = omega arith in
    rw (readb-ram (0x100 + u8 (s.cpu.sp + 1)) (set_sp (s.cpu.sp + 1) s) (omega arith)) (rw at refl)

-- Popping after a push gives the byte back and restores every register.
pub popb-pushb :
    (value : ℕ) (s : Machine)
    → s.cpu.sp < 256
    → cpu_stack_popb (cpu_stack_pushb value s)
      ≡ (u8 value, record s { cpu_ram = update s.cpu_ram (0x100 + s.cpu.sp) (u8 value) })
popb-pushb value s h =
    let pushed : Machine = record s {
      cpu = record (s.cpu) { sp = u8 (s.cpu.sp + 255) };
      cpu_ram = update s.cpu_ram (0x100 + s.cpu.sp) (u8 value);
    } in
    let back : u8 (u8 (s.cpu.sp + 255) + 1) ≡ s.cpu.sp = omega arith in
    rw (pushb_lem value s h, popb_lem pushed (omega arith))
      (rw (back, update_self s.cpu_ram (0x100 + s.cpu.sp) (u8 value)) refl)

-- RAM with a word at address `at`, the low byte first.
abbrev pub word_at : Store → ℕ → ℕ → Store
word_at ram at w = update (update ram at (u16 w % 256)) (at + 1) (u16 w / 256)

-- Pushing a word writes its low byte at 0xFF + SP and its high byte above it.
pub pushw_lem :
    (value : ℕ) (s : Machine)
    → s.cpu.sp < 256
    → cpu_stack_pushw value s ≡ record s {
      cpu = record (s.cpu) { sp = u8 (s.cpu.sp + 254) };
      cpu_ram = word_at s.cpu_ram (0xff + s.cpu.sp) value;
    }
unfolding cpu_stack_pushw memory_writew set_sp
pushw_lem value s h =
    let at : ℕ = 0xff + s.cpu.sp in
    let first : Machine = record s { cpu_ram = update s.cpu_ram at (u16 value % 256) } in
    let e1 : at % 0x800 ≡ at = omega arith in
    let e2 : (at + 1) % 0x800 ≡ at + 1 = omega arith in
    let e3 : u16 at ≡ at = omega arith in
    let e4 : u8 (u16 value % 256) ≡ u16 value % 256 = omega arith in
    let e5 : u8 (u16 value / 256) ≡ u16 value / 256 = omega arith in
    rw
      (
        bit_and_mask 8 (u16 value),
        writeb-ram at (u16 value % 256) s (omega arith),
        e3,
        e1,
        e4,
        writeb-ram (at + 1) (u16 value >> 8) first (omega arith),
        e2,
        e5,
      )
      refl

pub popw_lem :
    (s : Machine)
    → s.cpu.sp < 256
    → let at = 0xff + u8 (s.cpu.sp + 2) in
      cpu_stack_popw s ≡ (
        u16 (s.cpu_ram at + (s.cpu_ram (at + 1) << 8)),
        record s { cpu = record (s.cpu) { sp = u8 (s.cpu.sp + 2) } },
      )
unfolding cpu_stack_popw memory_readw set_sp
popw_lem s h =
    let at : ℕ = 0xff + u8 (s.cpu.sp + 2) in
    let moved : Machine = record s { cpu = record (s.cpu) { sp = u8 (s.cpu.sp + 2) } } in
    let e1 : at % 0x800 ≡ at = omega arith in
    let e2 : (at + 1) % 0x800 ≡ at + 1 = omega arith in
    let e3 : u16 at ≡ at = omega arith in
    rw (readb-ram at moved (omega arith), e3, e1, readb-ram (at + 1) moved (omega arith), e2) refl

pub word_at-low : (ram : Store) (at w : ℕ) → word_at ram at w at ≡ u16 w % 256
word_at-low ram at w =
    update_ne (update ram at (u16 w % 256)) (at + 1) (u16 w / 256) at (omega arith)
    ∙ update_self ram at (u16 w % 256)

pub word_at-high : (ram : Store) (at w : ℕ) → word_at ram at w (at + 1) ≡ u16 w / 256
word_at-high ram at w = update_self (update ram at (u16 w % 256)) (at + 1) (u16 w / 256)

pub word_at-whole :
    (ram : Store) (at w : ℕ) → u16 (word_at ram at w at + (word_at ram at w (at + 1) << 8)) ≡ u16 w
word_at-whole ram at w = rw (word_at-low ram at w, word_at-high ram at w) (omega arith)

-- Popping after a push gives the word back and restores every register.
pub popw-pushw :
    (value : ℕ) (s : Machine)
    → s.cpu.sp < 256
    → cpu_stack_popw (cpu_stack_pushw value s)
      ≡ (u16 value, record s { cpu_ram = word_at s.cpu_ram (0xff + s.cpu.sp) value })
popw-pushw value s h =
    let at : ℕ = 0xff + s.cpu.sp in
    let pushed : Machine = record s {
      cpu = record (s.cpu) { sp = u8 (s.cpu.sp + 254) };
      cpu_ram = word_at s.cpu_ram at value;
    } in
    let back : u8 (u8 (s.cpu.sp + 254) + 2) ≡ s.cpu.sp = omega arith in
    rw (pushw_lem value s h, popw_lem pushed (omega arith))
      (rw (back, word_at-whole s.cpu_ram at value) refl)
