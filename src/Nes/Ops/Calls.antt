-- ===== src/Nes/Ops/Calls.antt =====
-- Subroutines and interrupts return to where they were called.
use Prim.Native.Nat.{bit_or}
use triathlon.Prelude.{
  ℕ, ◌+◌, ◌%◌, ◌<◌, ◌≡◌, refl, subst, ◌∙◌, true, false, arith, ◌==◌, if◌then◌else◌,
}
use triathlon.Prelude.Bits.{bit, bit-lt, bit-or, bit-two_pow}
use triathlon.Prelude.Words.{u8, u16, sub_int, ◌<<◌}
use triathlon.Prelude.Store.{Store, update, update_self, update_ne}
use triathlon.Nes.State.{Machine, Cpu}
use triathlon.Nes.Common.{common_unset_bitb, common_modify_bitb}
use triathlon.Nes.Common.Digits.{bit-modify_bitb, bit-u8}
use triathlon.Nes.Ppu.{ppu_generates_nmi}
use triathlon.Nes.Cpu.{cpu_nmi_interrupt_address}
use triathlon.Nes.Memory.Ram.{readw-mmc}
use triathlon.Nes.Memory.Stack.{pushb_lem, popb_lem, pushw_lem, popw_lem, word_at, word_at-whole}
use triathlon.Nes.Ops.Control.{cpu_op_jsr, cpu_op_rts, cpu_op_brk, cpu_op_rti}
use triathlon.Nes.Run.{cpu_interrupt}

-- `RTS` after `JSR` goes on behind the call with every register as it was, whatever the stack
-- pointer; only the two bytes of the stack have changed. SP must be a byte and PC a word.
pub rts-jsr :
    (s : Machine)
    → s.cpu.sp < 256
    → s.cpu.pc < 0x10000
    → cpu_op_rts (cpu_op_jsr s)
      ≡ record s { cpu_ram = word_at s.cpu_ram (0xff + s.cpu.sp) (sub_int s.cpu.pc 1) }
unfolding cpu_op_rts cpu_op_jsr
rts-jsr s h k =
    let at : ℕ = 0xff + s.cpu.sp in
    let w : ℕ = sub_int s.cpu.pc 1 in
    let called : Machine = record s {
      cpu = record (s.cpu) { sp = u8 (s.cpu.sp + 254); pc = u16 s.op_address };
      cpu_ram = word_at s.cpu_ram at w;
    } in
    let back : u8 (u8 (s.cpu.sp + 254) + 2) ≡ s.cpu.sp = omega arith in
    let next : u16 (u16 w + 1) ≡ s.cpu.pc = omega arith in
    rw (pushw_lem w s h, popw_lem called (omega arith))
      (rw (back, word_at-whole s.cpu_ram at w, next) refl)

-- The stack after an interrupt entry: the word, then the status below it.
abbrev pub frame : Machine → ℕ → ℕ → Store
frame s w p = update (word_at s.cpu_ram (0xff + s.cpu.sp) w) (0x100 + u8 (s.cpu.sp + 254)) (u8 p)

-- The state in an interrupt handler, before its PC is set.
abbrev pub entered : Machine → ℕ → ℕ → Machine
entered s w p = record s {
  cpu = record (s.cpu) { sp = u8 (u8 (s.cpu.sp + 254) + 255) };
  cpu_ram = frame s w p;
}

frame-word :
    (w p : ℕ) (s : Machine)
    → s.cpu.sp < 256
    → let at = 0xff + s.cpu.sp in u16 (frame s w p at + (frame s w p (at + 1) << 8)) ≡ u16 w
frame-word w p s h =
    let at : ℕ = 0xff + s.cpu.sp in
    let top : ℕ = 0x100 + u8 (s.cpu.sp + 254) in
    let word : Store = word_at s.cpu_ram at w in
    rw
      (update_ne word top (u8 p) at (omega arith), update_ne word top (u8 p) (at + 1) (omega arith))
      (word_at-whole s.cpu_ram at w)

-- `t` has the stack pointer of `u` and the three bytes of the stack that an interrupt with the stack
-- pointer `sp` pushes.
pub record Keeps (sp : ℕ) (u t : Machine) : Type 0 where
  pub pointer : t.cpu.sp ≡ u.cpu.sp
  pub low : t.cpu_ram (0xff + sp) ≡ u.cpu_ram (0xff + sp)
  pub high : t.cpu_ram (0xff + sp + 1) ≡ u.cpu_ram (0xff + sp + 1)
  pub status : t.cpu_ram (0x100 + u8 (sp + 254)) ≡ u.cpu_ram (0x100 + u8 (sp + 254))

-- `RTI` in a handler that has kept the stack.
pub rti-Keeps :
    (w p : ℕ) (s t : Machine) (c : Cpu)
    → s.cpu.sp < 256
    → c.sp ≡ u8 (u8 (s.cpu.sp + 254) + 255)
    → Keeps s.cpu.sp (record s { cpu = c; cpu_ram = frame s w p }) t
    → cpu_op_rti t
      ≡ record t { cpu = record (t.cpu) { pc = u16 w; sp = s.cpu.sp; p = u8 (bit_or (u8 p) 0x20) } }
unfolding cpu_op_rti
rti-Keeps w p s t c h e kept =
    let t2 : Machine = record t {
      cpu = record (t.cpu) { sp = u8 (s.cpu.sp + 254); p = u8 (bit_or (u8 p) 0x20) };
    } in
    let twice : u16 (u16 w) ≡ u16 w = omega arith in
    let at : t.cpu.sp ≡ u8 (u8 (s.cpu.sp + 254) + 255) = kept.pointer ∙ e in
    let up : u8 (t.cpu.sp + 1) ≡ u8 (s.cpu.sp + 254) = omega arith in
    let back : u8 (u8 (s.cpu.sp + 254) + 2) ≡ s.cpu.sp = omega arith in
    rw
      (
        popb_lem t (omega arith),
        up,
        kept.status,
        update_self (word_at s.cpu_ram (0xff + s.cpu.sp) w) (0x100 + u8 (s.cpu.sp + 254)) (u8 p),
        popw_lem t2 (omega arith),
        back,
        kept.low,
        kept.high,
        frame-word w p s h,
        twice,
      )
      refl

Keeps-refl : (sp : ℕ) (u : Machine) → Keeps sp u u
Keeps-refl sp u = record { pointer = refl; low = refl; high = refl; status = refl }

-- The word at 0xFFFA, where `cpu_interrupt` and `BRK` go on.
abbrev pub nmi_vector : Machine → ℕ
nmi_vector s = u16 (s.mmc.memory 0xfffa + (s.mmc.memory 0xfffb << 8))

-- The status that `cpu_interrupt` pushes.
abbrev pub interrupt_status : Machine → ℕ
interrupt_status s = u8 (common_unset_bitb (u8 (bit_or s.cpu.p 0x04)) 5)

interrupt_lem :
    (s : Machine)
    → s.cpu.sp < 256
    → ppu_generates_nmi s.ppu ≡ true
    → let s' = entered s s.cpu.pc (interrupt_status s) in
      cpu_interrupt s
      ≡ record s' { cpu = record (s'.cpu) { p = interrupt_status s; pc = u16 (nmi_vector s) } }
unfolding cpu_interrupt cpu_nmi_interrupt_address
interrupt_lem s h nmi =
    let p : ℕ = interrupt_status s in
    let masked : Machine = record s { cpu = record (s.cpu) { p = p } } in
    let half : Machine = record masked {
      cpu = record (masked.cpu) { sp = u8 (s.cpu.sp + 254) };
      cpu_ram = word_at s.cpu_ram (0xff + s.cpu.sp) s.cpu.pc;
    } in
    rw
      (
        nmi,
        pushw_lem s.cpu.pc masked h,
        pushb_lem p half (omega arith),
        readw-mmc 0xfffa (entered masked s.cpu.pc p) (omega arith) (omega arith),
      )
      refl

pub bit-unset_bitb :
    (j k v : ℕ) → j < 8 → k < 8 → bit j (common_unset_bitb v k) ≡ (if j == k then 0 else bit j v)
bit-unset_bitb j k v h l = unfold common_modify_bitb in bit-modify_bitb j k v false h l

bit-resumed :
    (j p : ℕ)
    → j < 8
    → bit j (u8 (bit_or (u8 (u8 (common_unset_bitb (u8 (bit_or p 0x04)) 5))) 0x20))
      ≡ (if j == 2 then 1 else if j == 5 then 1 else bit j p)
bit-resumed j p h =
    rw
      (
        bit-u8 j (bit_or (u8 (u8 (common_unset_bitb (u8 (bit_or p 0x04)) 5))) 0x20) h,
        bit-or,
        bit-u8 j (u8 (common_unset_bitb (u8 (bit_or p 0x04)) 5)) h,
        bit-u8 j (common_unset_bitb (u8 (bit_or p 0x04)) 5) h,
        bit-unset_bitb j 5 (u8 (bit_or p 0x04)) h (omega arith),
        bit-u8 j (bit_or p 0x04) h,
        bit-or,
        bit-two_pow j 2,
        bit-two_pow j 5,
      )
      (ground (arith, bit-lt j p))

-- A handler entered by `cpu_interrupt` that ends in `RTI` goes back to the interrupted instruction
-- with the stack pointer as it was before the interrupt, and with the status as it was but for the
-- unused flag and the interrupt flag, both of which are then set; all else is as the handler left
-- it. The handler is anything that comes to its `RTI` in a state with the stack pointer and the three
-- pushed bytes that the entry left. SP must be a byte, PC a word, and the picture unit must ask for
-- the interrupt.
pub rti-interrupt :
    (j : ℕ) (s t : Machine)
    → s.cpu.sp < 256
    → s.cpu.pc < 0x10000
    → ppu_generates_nmi s.ppu ≡ true
    → Keeps s.cpu.sp (cpu_interrupt s) t
    → j < 8
    → let t' = cpu_op_rti t in
      (t' ≡ record t { cpu = record (t.cpu) { pc = s.cpu.pc; sp = s.cpu.sp; p = t'.cpu.p } })
      × (bit j t'.cpu.p ≡ (if j == 2 then 1 else if j == 5 then 1 else bit j s.cpu.p))
rti-interrupt j s t h k nmi kept l =
    let p : ℕ = interrupt_status s in
    let c : Cpu = record (s.cpu) {
      sp = u8 (u8 (s.cpu.sp + 254) + 255);
      p = p;
      pc = u16 (nmi_vector s);
    } in
    let word : u16 s.cpu.pc ≡ s.cpu.pc = omega arith in
    let inside = subst (λ u. Keeps s.cpu.sp u t) (interrupt_lem s h nmi) kept in
    rw (rti-Keeps s.cpu.pc p s t c h refl inside, word) (refl, bit-resumed j s.cpu.p l)

brk_lem :
    (s : Machine)
    → s.cpu.sp < 256
    → let s' = entered s (sub_int s.cpu.pc 1) s.cpu.p in
      cpu_op_brk s ≡ record s' {
        cpu = record (s'.cpu) { p = u8 (bit_or s.cpu.p 0x30); pc = u16 (nmi_vector s) };
      }
unfolding cpu_op_brk cpu_nmi_interrupt_address
brk_lem s h =
    let w : ℕ = sub_int s.cpu.pc 1 in
    let half : Machine = record s {
      cpu = record (s.cpu) { sp = u8 (s.cpu.sp + 254) };
      cpu_ram = word_at s.cpu_ram (0xff + s.cpu.sp) w;
    } in
    let full : Machine = entered s w s.cpu.p in
    let flagged : Machine = record full {
      cpu = record (full.cpu) { p = u8 (bit_or s.cpu.p 0x30) };
    } in
    rw
      (
        pushw_lem w s h,
        pushb_lem s.cpu.p half (omega arith),
        readw-mmc 0xfffa flagged (omega arith) (omega arith),
      )
      refl

-- `BRK` goes on at the address that the cartridge holds at 0xFFFA, and a handler entered by it
-- that ends in `RTI` goes back to the address one below the PC that `BRK` ran with, which is that
-- of the `BRK` itself, with the other registers and the flags as they were and the unused flag
-- set. SP must be a byte and PC a word.
pub rti-brk :
    (s : Machine)
    → s.cpu.sp < 256
    → s.cpu.pc < 0x10000
    → ((cpu_op_brk s).cpu.pc ≡ nmi_vector s)
      × (cpu_op_rti (cpu_op_brk s) ≡ record s {
        cpu = record (s.cpu) {
          pc = (s.cpu.pc + 0xffff) % 0x10000;
          p = u8 (bit_or (u8 s.cpu.p) 0x20);
        };
        cpu_ram = frame s (sub_int s.cpu.pc 1) s.cpu.p;
      })
rti-brk s h k =
    let w : ℕ = sub_int s.cpu.pc 1 in
    let c : Cpu = record (s.cpu) {
      sp = u8 (u8 (s.cpu.sp + 254) + 255);
      p = u8 (bit_or s.cpu.p 0x30);
      pc = u16 (nmi_vector s);
    } in
    let before : u16 w ≡ (s.cpu.pc + 0xffff) % 0x10000 = omega arith in
    rw (brk_lem s h, rti-Keeps w s.cpu.p s _ c h refl (Keeps-refl s.cpu.sp _), before)
      (omega arith, refl)
