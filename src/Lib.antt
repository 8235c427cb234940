-- ===== src/Lib.antt =====
-- A model of the Triathlon repository's C and C++ programs, with the theorems that make them correct.
--
-- LiteNES, the emulator of am-kernels/kernels/litenes/src, is the modules under Nes. One record,
-- Nes.State.Machine, holds the variables that its files keep between calls, and every function of
-- the source is a function from that record to the record, with the source's name:
--   Nes.Common      common.c: single bits of a byte, a word, a double word
--   Nes.Ppu         ppu.c: the registers, both ports, the folding of addresses, mirroring
--   Nes.Psg         psg.c: the joystick
--   Nes.Mmc         mmc.c: the cartridge
--   Nes.Memory      memory.c: the memory map and the copy of sprites; the stack of cpu.c
--   Nes.Cpu         cpu.c: the flags and what several instructions share
--   Nes.Addressing  cpu-addressing.c: the twelve addressing modes
--   Nes.Ops         cpu.c: the instructions; jumps, stack and unofficial ones in child modules
--   Nes.Opcodes     cpu.c: the tables that cpu_init fills
--   Nes.Run         cpu.c: reset, interrupts and the main loop
--   Nes.Scanline    ppu.c: the drawing of a scanline, and ppu_cycle
--   Nes.Screen      fce.c: the canvas and its update
--   Nes.Rom         fce.c: the loading of a cartridge image
-- The processor calls the memory map, which calls the picture unit, the joystick and the cartridge;
-- the picture unit asks the processor for an interrupt. The child modules of each hold its proofs.
--
-- klib, the C library of abstract-machine/klib/src, is the modules under Klib, over a memory that is
-- a function from addresses to bytes:
--   Klib.Mem        string.c: memset, memmove, memcpy, memcmp
--   Klib.Strings    string.c: the functions on terminated strings
--   Klib.Stdlib     stdlib.c: numbers, the generator, the allocator
--   Klib.Stdio      stdio.c: printf;  Klib.Sprintf: sprintf
--
-- Programs of am-kernels, without what they draw and print:
--   Kernels.Threads  kernels/thread-os: the scheduler, for any number of processors
--   Kernels.Yields   kernels/yield-os: the scheduler
--   Kernels.Snake    kernels/snake
--   Kernels.Ant, Kernels.Life, Kernels.Hanoi   kernels/demo/src
--   Bench            the sorts and crc32 of tests/cpu-tests/tests; qsort, sieve and queen of
--                    benchmarks/microbench/src
--
-- The test bench of the processor core, npc/csrc, is the modules under Npc. One record,
-- Npc.State.UnifiedMem, is the object `UnifiedMem` of include/memory_models.h, with a record for the
-- fields of each device, and its member functions are functions on that record or on the device's:
--   Npc.State       the fields, and the memory map of include/platform_contract.h
--   Npc.Plic        the interrupt controller; Npc.Plic.Gateway: what it promises
--   Npc.Clint       the timer;  Npc.Uart: the serial port
--   Npc.Phys        reads and writes of physical memory by the block device
--   Npc.Virtio      the block device: its queue (Ring), a request (Request), its registers and the
--                   doorbell (Device)
--   Npc.Bus         the loads and stores, which choose the device, and the loading of images
--   Npc.Caches      the models that answer the caches, and a clock cycle with the compiled design
--   Npc.Boot        include/boot_loader.h; Npc.Boot.Hart: the instructions that the stubs consist of
--   Npc.Trap        include/trap_decode.h
--   Npc.Difftest    lib/difftest_client.cpp
--   Npc.Stages      include/linux_boot_stage.h
--   Npc.Profiler    lib/profile_collector_stall.cpp, and record_commit of
--                   lib/profile_collector_runtime.cpp (Commits); the labels are texts
-- The bus calls every device; the block device calls physical memory and the interrupt controller;
-- the caches' models call the bus. The compiled design and the reference processor's library are
-- parameters, records of the functions that the source calls; the comparison's theorem asks of the
-- reference that it holds the registers that it is given. Npc.Boot.Hart is the RISC-V manual's
-- description of four instructions, against which the stubs are checked. The loop of the doorbell
-- has 2 ^ 16 rounds, since its index has 16 bits, which a theorem shows to be enough.
--
-- Loops that wait for a terminator take fuel, one more than the characters they pass. `long` and
-- `size_t` have 64 bits. The variable arguments of printf are a list.
--
-- A byte, a word and an `int` are numbers, cut to their width where the source stores them: a
-- negative `int` is its two's complement. An array is a total function on indices; that no register
-- access of the picture unit leaves PPU_RAM is a theorem. C leaves the order of the two reads of
-- memory_readw open, and the model reads the low byte first. The loop of cpu_run takes fuel, one
-- for each round; a third of its cycles is enough while the codes that it fetches are assigned, and
-- one that is not charges nothing. A failed assertion is `none`.
--
-- Not modelled: the frame loop and the clock of LiteNES, the names of instructions, its profiling; the
-- profiler's account of flushes, the arguments and the main loop of npc/csrc, and the text that its
-- parts print; the
-- processor core, which is SystemVerilog; and the parts of the repository that are vendored.
pub mod Prelude
pub mod Nes
pub mod Klib
pub mod Kernels
pub mod Bench
pub mod Npc
