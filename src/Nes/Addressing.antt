-- ===== src/Nes/Addressing.antt =====
-- The addressing modes, cpu-addressing.c. `op_value` and `op_address` are `int`s.
use Prim.Native.Nat.{bit_and, bit_or}
use triathlon.Prelude.{ℕ, ◌+◌, ◌==◌, if◌then◌else◌}
use triathlon.Prelude.Words.{add_int, sub_int, shr_int, truth, ◌<<◌, ◌>>◌}
use triathlon.Nes.State.{Machine}
use triathlon.Nes.Memory.{memory_readb, memory_readw}
use triathlon.Nes.Cpu.{set_pc}

abbrev set_value : ℕ → Machine → Machine
set_value v s = record s { op_value = v }

abbrev set_address : ℕ → Machine → Machine
set_address v s = record s { op_address = v }

abbrev advance : ℕ → Machine → Machine
advance n s = set_pc (s.cpu.pc + n) s

-- `if ((op_address >> 8) != (cpu.PC >> 8)) op_cycles++`.
unfoldable pub page_cross : Machine → Machine
page_cross s =
    if shr_int s.op_address 8 == (s.cpu.pc >> 8)
    then s
    else record s { op_cycles = add_int s.op_cycles 1 }

-- `op_value = memory_readb(op_address)`.
unfoldable pub load_operand : Machine → Machine
load_operand s = let (v, s') = memory_readb s.op_address s in set_value v s'

-- `op_value = CPU_RAM[op_address]`, for an address below 256.
unfoldable pub load_zero_page : Machine → Machine
load_zero_page s = set_value (s.cpu_ram s.op_address) s

unfoldable pub cpu_address_implied : Machine → Machine
cpu_address_implied s = s

unfoldable pub cpu_address_immediate : Machine → Machine
cpu_address_immediate s = let (v, s') = memory_readb s.cpu.pc s in advance 1 (set_value v s')

unfoldable pub cpu_address_zero_page : Machine → Machine
cpu_address_zero_page s =
    let (v, s') = memory_readb s.cpu.pc s in advance 1 (load_zero_page (set_address v s'))

unfoldable pub cpu_address_zero_page_x : Machine → Machine
cpu_address_zero_page_x s =
    let (v, s') = memory_readb s.cpu.pc s in
    advance 1 (load_zero_page (set_address (bit_and (v + s'.cpu.x) 0xff) s'))

unfoldable pub cpu_address_zero_page_y : Machine → Machine
cpu_address_zero_page_y s =
    let (v, s') = memory_readb s.cpu.pc s in
    advance 1 (load_zero_page (set_address (bit_and (v + s'.cpu.y) 0xff) s'))

unfoldable pub cpu_address_absolute : Machine → Machine
cpu_address_absolute s =
    let (w, s') = memory_readw s.cpu.pc s in advance 2 (load_operand (set_address w s'))

-- The address is not cut to 16 bits here.
unfoldable pub cpu_address_absolute_x : Machine → Machine
cpu_address_absolute_x s =
    let (w, s') = memory_readw s.cpu.pc s in
    page_cross (advance 2 (load_operand (set_address (w + s'.cpu.x) s')))

unfoldable pub cpu_address_absolute_y : Machine → Machine
cpu_address_absolute_y s =
    let (w, s') = memory_readw s.cpu.pc s in
    page_cross (advance 2 (load_operand (set_address (bit_and (w + s'.cpu.y) 0xffff) s')))

unfoldable pub cpu_address_relative : Machine → Machine
cpu_address_relative s =
    let (v, s1) = memory_readb s.cpu.pc s in
    let s2 = advance 1 s1 in
    let offset = if truth (bit_and v 0x80) then sub_int v 0x100 else v in
    page_cross (set_address (add_int offset s2.cpu.pc) s2)

-- The pointer at 0x..FF takes its high byte from the start of the same page.
unfoldable pub indirect_target : ℕ → Machine → ℕ × Machine
indirect_target arg_addr s =
    if bit_and arg_addr 0xff == 0xff
    then (let (hi, s1) = memory_readb (bit_and arg_addr 0xff00) s in
        let (lo, s2) = memory_readb arg_addr s1 in ((hi << 8) + lo, s2))
    else memory_readw arg_addr s

unfoldable pub cpu_address_indirect : Machine → Machine
cpu_address_indirect s =
    let (arg_addr, s1) = memory_readw s.cpu.pc s in
    let (target, s2) = indirect_target arg_addr s1 in advance 2 (set_address target s2)

-- A pointer in page zero, whose high byte is at the next address of that page.
unfoldable pub zero_page_pointer : ℕ → Machine → ℕ × Machine
zero_page_pointer at s =
    let (hi, s1) = memory_readb (bit_and (at + 1) 0xff) s in
    let (lo, s2) = memory_readb (bit_and at 0xff) s1 in (bit_or (hi << 8) lo, s2)

unfoldable pub cpu_address_indirect_x : Machine → Machine
cpu_address_indirect_x s =
    let (arg_addr, s1) = memory_readb s.cpu.pc s in
    let (target, s2) = zero_page_pointer (arg_addr + s1.cpu.x) s1 in
    advance 1 (load_operand (set_address target s2))

unfoldable pub cpu_address_indirect_y : Machine → Machine
cpu_address_indirect_y s =
    let (arg_addr, s1) = memory_readb s.cpu.pc s in
    let (target, s2) = zero_page_pointer arg_addr s1 in
    page_cross (advance 1 (load_operand (set_address (bit_and (target + s2.cpu.y) 0xffff) s2)))
