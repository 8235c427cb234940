-- ===== src/Nes/Memory/Frame.antt =====
-- What memory.c and the stack routines leave alone: the registers and the current instruction.
use triathlon.Prelude.{ℕ, zero, suc, ◌+◌, ◌≡◌, refl, ◌∙◌, Bool, true, false, ◌==◌, if◌then◌else◌}
use triathlon.Prelude.Words.{u8, u16, ◌>>◌}
use triathlon.Nes.State.{Machine}
use triathlon.Nes.Memory.{
  read_region, write_region, dma_from, memory_readb, memory_writeb, memory_readw, memory_writew,
  cpu_ram_write, set_sp, cpu_stack_pushb, cpu_stack_pushw, cpu_stack_popb, cpu_stack_popw,
}

-- The cycles of the current instruction and the count of all cycles.
abbrev pub clocks : Machine → ℕ × ℕ
clocks s = (s.op_cycles, s.cpu_cycles)

-- The parts that an access of memory never changes.
pub record Keeps (s s' : Machine) : Type 0 where
  pub cpu : s'.cpu ≡ s.cpu
  pub op_code : s'.op_code ≡ s.op_code
  pub op_value : s'.op_value ≡ s.op_value
  pub op_address : s'.op_address ≡ s.op_address
  pub clocks : clocks s' ≡ clocks s

Keeps-refl : (s : Machine) → Keeps s s
Keeps-refl s = record {
  cpu = refl;
  op_code = refl;
  op_value = refl;
  op_address = refl;
  clocks = refl;
}

pub Keeps-trans : {s t u : Machine} → Keeps s t → Keeps t u → Keeps s u
Keeps-trans h k = record {
  cpu = k.cpu ∙ h.cpu;
  op_code = k.op_code ∙ h.op_code;
  op_value = k.op_value ∙ h.op_value;
  op_address = k.op_address ∙ h.op_address;
  clocks = k.clocks ∙ h.clocks;
}

if-Keeps :
    {s : Machine} (b : Bool) (t u : Machine) → Keeps s t → Keeps s u → Keeps s (if b then t else u)
if-Keeps true t u h k = h
if-Keeps false t u h k = k

if-Keeps_snd :
    {s : Machine} (b : Bool) (t u : ℕ × Machine)
    → Keeps s t.1
    → Keeps s u.1
    → Keeps s (if b then t else u).1
if-Keeps_snd true t u h k = h
if-Keeps_snd false t u h k = k

same :
    {s s' : Machine}
    → s'.cpu ≡ s.cpu
    → s'.op_code ≡ s.op_code
    → s'.op_value ≡ s.op_value
    → s'.op_address ≡ s.op_address
    → clocks s' ≡ clocks s
    → Keeps s s'
same a b c d e = record { cpu = a; op_code = b; op_value = c; op_address = d; clocks = e }

pub memory_readb-Keeps : (address : ℕ) (s : Machine) → Keeps s (memory_readb address s).1
unfolding memory_readb read_region
memory_readb-Keeps address s = if-Keeps_snd (u16 address >> 13 == 0) _ _ (Keeps-refl s) (
    if-Keeps_snd (u16 address >> 13 == 1) _ _ (same refl refl refl refl refl) (
      if-Keeps_snd (u16 address >> 13 == 2) _ _ (same refl refl refl refl refl)
        (if-Keeps_snd (u16 address >> 13 == 3) _ _ (Keeps-refl s) (Keeps-refl s))))

dma_from-Keeps : (page i n : ℕ) (s : Machine) → Keeps s (dma_from page i n s)
unfolding dma_from
dma_from-Keeps page i zero s = Keeps-refl s
dma_from-Keeps page i (suc n) s =
    Keeps-trans (same refl refl refl refl refl) (dma_from-Keeps page (i + 1) n _)

pub memory_writeb-Keeps :
    (address value : ℕ) (s : Machine) → Keeps s (memory_writeb address value s)
unfolding memory_writeb write_region cpu_ram_write
memory_writeb-Keeps address value s =
    if-Keeps (u16 address == 0x4014) _ _ (dma_from-Keeps (u8 value) 0 256 s) (
      if-Keeps (u16 address >> 13 == 0) _ _ (same refl refl refl refl refl) (
        if-Keeps (u16 address >> 13 == 1) _ _ (same refl refl refl refl refl) (
          if-Keeps (u16 address >> 13 == 2) _ _ (same refl refl refl refl refl) (
            if-Keeps (u16 address >> 13 == 3) _ _ (same refl refl refl refl refl)
              (same refl refl refl refl refl)))))

pub memory_readw-Keeps : (address : ℕ) (s : Machine) → Keeps s (memory_readw address s).1
unfolding memory_readw
memory_readw-Keeps address s =
    Keeps-trans (memory_readb-Keeps address s) (memory_readb-Keeps (u16 address + 1) _)

pub memory_writew-Keeps :
    (address value : ℕ) (s : Machine) → Keeps s (memory_writew address value s)
unfolding memory_writew
memory_writew-Keeps address value s =
    Keeps-trans (memory_writeb-Keeps address _ s) (memory_writeb-Keeps (u16 address + 1) _ _)

-- The stack routines move SP and leave the clocks alone.
pub clocks-pushb : (value : ℕ) (s : Machine) → clocks (cpu_stack_pushb value s) ≡ clocks s
unfolding cpu_stack_pushb set_sp
clocks-pushb value s = (memory_writeb-Keeps (0x100 + s.cpu.sp) value _).clocks

pub clocks-pushw : (value : ℕ) (s : Machine) → clocks (cpu_stack_pushw value s) ≡ clocks s
unfolding cpu_stack_pushw set_sp
clocks-pushw value s = (memory_writew-Keeps (0xff + s.cpu.sp) value s).clocks

pub clocks-popb : (s : Machine) → clocks (cpu_stack_popb s).1 ≡ clocks s
unfolding cpu_stack_popb set_sp
clocks-popb s = (memory_readb-Keeps (0x100 + u8 (s.cpu.sp + 1)) _).clocks

pub clocks-popw : (s : Machine) → clocks (cpu_stack_popw s).1 ≡ clocks s
unfolding cpu_stack_popw set_sp
clocks-popw s = (memory_readw-Keeps (0xff + u8 (s.cpu.sp + 2)) _).clocks
