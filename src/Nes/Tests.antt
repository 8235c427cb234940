-- ===== src/Nes/Tests.antt =====
-- The theorems at concrete machines, and runs of the code.
use triathlon.Prelude.{
  ◌+◌, ◌-◌, ◌*◌, ◌%◌, ◌≡◌, refl, true, false, arith, ◌==◌, ltb, leb, if◌then◌else◌, [], ◌∷◌,
}
use triathlon.Prelude.Bits.{bit}
use triathlon.Prelude.Words.{sub_int}
use triathlon.Prelude.Store.{update, Store}
use triathlon.Nes.State.{Machine, Cpu, Ppu, Psg, Mmc}
use triathlon.Nes.Common.{common_bit_set, common_modify_bitb}
use triathlon.Nes.Ppu.{ppuio_read, ppuio_write, ppu_generates_nmi}
use triathlon.Nes.Ppu.Bounds.{ppuio_write-inside}
use triathlon.Nes.Ppu.Ports.{read-write_data}
use triathlon.Nes.Psg.{psgio_write}
use triathlon.Nes.Psg.Joystick.{reads, reads-strobe}
use triathlon.Nes.Mmc.{mmc_read}
use triathlon.Nes.Memory.{memory_readb, memory_writeb, read_region, cpu_ram_read}
use triathlon.Nes.Memory.Stack.{word_at}
use triathlon.Nes.Memory.Dma.{dma-copies, with_sprites}
use triathlon.Nes.Cpu.{cpu_compare}
use triathlon.Nes.Cpu.Status.{HoldsBytes, Status, signed_up, out_of_range}
use triathlon.Nes.Cpu.Addition.{sum_of, adc-adds}
use triathlon.Nes.Cpu.Subtraction.{difference_of, borrow, sbc-subtracts}
use triathlon.Nes.Addressing.{cpu_address_implied}
use triathlon.Nes.Ops.{cpu_op_adc, cpu_op_sbc, cpu_op_nop}
use triathlon.Nes.Ops.Control.{cpu_op_jsr, cpu_op_rts, cpu_op_rti}
use triathlon.Nes.Ops.Calls.{Keeps, rts-jsr, rti-interrupt}
use triathlon.Nes.Opcodes.{address_mode, handle, Row, bis, nop, implied}
use triathlon.Nes.Opcodes.Rows.{rows}
use triathlon.Nes.Run.{
  assigned, cpu_op, cycles_of, cpu_round, fetch, execute, cpu_run, cpu_interrupt,
}
use triathlon.Nes.Run.Progress.{Runs, Ended, cpu_run-Ended}
use triathlon.Nes.Screen.{Screen}
use triathlon.Nes.Scanline.{ppu_draw_background_scanline}
use triathlon.Nes.Scanline.Bounds.{background-inside}

abbrev registers : Cpu
registers = record { pc = 0x8001; sp = 0xfd; a = 0x50; x = 1; y = 2; p = 0x25 }

abbrev picture : Ppu
picture = record {
  ppuctrl = 0x80;
  ppumask = 0x18;
  ppustatus = 0xa0;
  oamaddr = 4;
  oamdata = 0;
  ppuscroll = 0;
  ppuscroll_x = 0;
  ppuscroll_y = 0;
  ppuaddr = 0x2104;
  ppudata = 0;
  scroll_received_x = false;
  addr_received_high_byte = false;
  ready = true;
  mirroring = 1;
  mirroring_xor = 0x800;
  scanline = 3;
  first_read = true;
  addr_latch = 0;
  latch = 0;
  sprite_hit_occured = false;
  sprram = λ _. 0;
  ram = λ i. i % 251;
}

abbrev pad : Psg
pad = record { p = 10; key_state = λ k. k % 2; prev_write = 0 }

-- A cartridge full of NOP.
abbrev cartridge : Mmc
cartridge = record { id = 0; chr_pages = λ _. 0; chr_pages_number = 0; memory = λ _. 0xea }

abbrev board : Machine
board = record {
  cpu = registers;
  cpu_ram = λ i. i % 256;
  op_code = 0;
  op_value = 0x50;
  op_address = 0x9000;
  op_cycles = 0;
  cpu_cycles = 100;
  ppu = picture;
  psg = pad;
  mmc = cartridge;
}

board-HoldsBytes : HoldsBytes board
board-HoldsBytes = omega arith

-- 0x50 + 0x50 + 1 is 0xA1, a signed overflow.
adc_runs : ((cpu_op_adc board).cpu.a ≡ 0xa1) × ((cpu_op_adc board).cpu.p ≡ 0xe4)
unfolding cpu_op_adc common_bit_set common_modify_bitb triathlon.Nes.Cpu.zn_flags
    triathlon.Nes.Cpu.cpu_zn_flag_table
adc_runs = (refl, refl)

adc-adds_example :
    let s' = cpu_op_adc board in
    (s'.cpu.a ≡ sum_of board % 256)
    × Status board.cpu.p s'.cpu.p
        (sum_of board % 256)
        (leb 256 (sum_of board))
        (out_of_range (signed_up board.cpu.a + signed_up board.op_value + bit 0 board.cpu.p))
adc-adds_example = adc-adds board board-HoldsBytes

sbc-subtracts_example :
    let s' = cpu_op_sbc board in
    (s'.cpu.a ≡ difference_of board)
    × Status board.cpu.p s'.cpu.p
        (difference_of board)
        (leb (board.op_value + borrow board) board.cpu.a)
        (out_of_range (signed_up board.cpu.a + 512 - signed_up board.op_value - borrow board))
sbc-subtracts_example = sbc-subtracts board board-HoldsBytes

rts-jsr_example :
    cpu_op_rts (cpu_op_jsr board)
    ≡ record board { cpu_ram = word_at board.cpu_ram 0x1fc (sub_int 0x8001 1) }
rts-jsr_example = rts-jsr board (omega arith) (omega arith)

wants_nmi : ppu_generates_nmi picture ≡ true
unfolding ppu_generates_nmi common_bit_set
wants_nmi = refl

-- A handler that loads A and counts in the zero page.
abbrev handled : Machine
handled =
    let u = cpu_interrupt board in
    record u { cpu = record (u.cpu) { a = 7; pc = 0x9000 }; cpu_ram = update u.cpu_ram 0x10 1 }

handled-Keeps : Keeps 0xfd (cpu_interrupt board) handled
unfolding update
handled-Keeps = record { pointer = refl; low = refl; high = refl; status = refl }

rti-interrupt_example :
    let t' = cpu_op_rti handled in
    (t' ≡ record handled { cpu = record (handled.cpu) { pc = 0x8001; sp = 0xfd; p = t'.cpu.p } })
    × (bit 6 t'.cpu.p ≡ bit 6 0x25)
rti-interrupt_example =
    rti-interrupt 6 board handled (omega arith) (omega arith) wants_nmi handled-Keeps (omega arith)

abbrev nop_row : Row
nop_row = bis 0xea 2 nop implied

nops : Runs 3 board
unfolding cpu_op assigned rows fetch memory_readb read_region mmc_read cpu_round cycles_of execute
    address_mode handle cpu_address_implied cpu_op_nop
nops = ((nop_row, refl), ((nop_row, refl), ((nop_row, refl), tt)))

cpu_run-Ended_example : Ended 3 board (cpu_run 3 9 board)
cpu_run-Ended_example = cpu_run-Ended 3 9 board (omega arith) refl nops

reads-strobe_example :
    reads 8 (psgio_write 0x4016 0 (psgio_write 0x4016 1 pad)) ≡ 1 ∷ 0 ∷ 1 ∷ 0 ∷ 0 ∷ 0 ∷ 1 ∷ 1 ∷ []
reads-strobe_example = reads-strobe pad 1 0 refl refl

ppuio_write-inside_example : (ppuio_write 7 9 picture).ram 0x5000 ≡ picture.ram 0x5000
ppuio_write-inside_example = ppuio_write-inside 7 9 0x5000 picture (omega arith) (omega arith)

read-write_data_example :
    let u' = ppuio_write 7 9 picture in ((ppuio_read 7 u').0 ≡ 9) × (u'.ppuaddr ≡ 0x2104)
read-write_data_example = read-write_data 9 picture

dma-copies_example :
    let s' = memory_writeb 0x4014 2 board in
    (s'.ppu.sprram ((4 + 254) % 256) ≡ cpu_ram_read (0x100 * 2 + 254) board)
    × (s' ≡ with_sprites board s'.ppu.sprram 4)
dma-copies_example = dma-copies 2 254 board (omega arith) (omega arith) (omega arith)

-- An image of NROM with one block of NOP and one page of 0x77.
abbrev image : Store
image i =
    if i == 0
    then 0x4e
    else if i == 1
    then 0x45
    else if i == 2
    then 0x53
    else if i == 3
    then 0x1a
    else if ltb i 6
    then 1
    else if ltb i 16
    then 0
    else if ltb i 0x4010
    then 0xea
    else 0x77

abbrev blank_screen : Screen
blank_screen = record { frame_cnt = 0; canvas = λ _. 0; background = λ _. 0; shown = λ _. 0 }

background-inside_example :
    (ppu_draw_background_scanline true picture blank_screen).canvas 61440 ≡ 0
background-inside_example = background-inside true 61440 picture blank_screen (omega arith)
