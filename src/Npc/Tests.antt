-- ===== src/Npc/Tests.antt =====
-- The theorems on the test bench at concrete states.
use triathlon.Prelude.{
  ℕ, ◌+◌, ◌*◌, ◌^◌, ◌%◌, ◌-◌, ◌==◌, ◌&&◌, ltb, leb, if◌then◌else◌, true, false, some, List, [], ◌∷◌,
  ◌++◌, ◌≡◌, refl, arith, inl, inr, replicate, ◌||◌,
}
use triathlon.Npc.State.{
  Plic, Clint, Uart, Virtio, Watch, UnifiedMem, clint_mtimecmp_low, clint_mtimecmp_high,
}
use triathlon.Npc.Plic.{plic_source1_enabled}
use triathlon.Npc.Plic.Gateway.{
  PlicOp, set_source, claim, complete, set_priority, set_enable, plic_trace, gateway_trace, gateway,
  IsGated, plic-refines, complete-reraises,
}
use triathlon.Npc.Clint.{write_clint, timer_irq_pending, write_clint-safe}
use triathlon.Npc.Uart.Line.{send, set_divisor, set_divisor-send}
use triathlon.Npc.Phys.{read_phys_byte, read_phys_u32, write_phys_u32}
use triathlon.Npc.Phys.Bytes.{IsWords}
use triathlon.Npc.Phys.RoundTrip.{read_u32-write_u32}
use triathlon.Npc.Bus.{write_store, write_half}
use triathlon.Npc.Bus.Stores.{Assigned, write_store-Assigned, write_half-crossing}
use triathlon.Npc.Bus.Rom.{write_store-Kept}
use triathlon.Npc.Trap.{is_ebreak_insn_word, is_ebreak-halves}

abbrev quiet_plic : Plic
quiet_plic = record {
  priority1 = 0;
  enable_m = 0;
  threshold_m = 0;
  source_pending1 = false;
  pending1 = false;
  claimed1 = false;
}

abbrev start_clint : Clint
start_clint = record { rtc_time_us = 0; mtime = 5; mtimecmp = 2 ^ 64 - 1 }

abbrev start_uart : Uart
start_uart = record {
  stdout_enabled = true;
  ier = 1;
  fcr = 0;
  lcr = 0;
  mcr = 0;
  lsr = 0x60;
  msr = 0;
  scr = 0;
  dll = 0;
  dlm = 0;
  tx_bytes = 0;
  last_tx = 0;
  out = [];
}

abbrev no_virtio : Virtio
no_virtio = record {
  enabled_flag = false;
  image = λ i. 0;
  image_size = 0;
  device_features_sel = 0;
  driver_features_sel = 0;
  driver_features_lo = 0;
  driver_features_hi = 0;
  queue_sel = 0;
  queue_num = 0;
  queue_ready = 0;
  queue_desc = 0;
  queue_avail = 0;
  queue_used = 0;
  last_avail_idx = 0;
  status = 0;
  interrupt_status = 0;
  config_generation = 0;
}

abbrev no_watch : Watch
no_watch = record {
  enabled = false;
  base = 0x80400000;
  limit = 0x80440000;
  write_count = 0;
  last_write_addr = 0;
  last_write_data = 0;
}

abbrev pub start : UnifiedMem
start = record {
  pmem_words = λ i. 0;
  bootrom_words = λ i. 0;
  clint = start_clint;
  plic = quiet_plic;
  virtio = no_virtio;
  uart = start_uart;
  watch = no_watch;
}

start-IsWords : IsWords start
unfolding IsWords
start-IsWords i = omega arith

quiet-IsGated : IsGated quiet_plic
unfolding IsGated
quiet-IsGated = refl

abbrev interrupted : List PlicOp
interrupted =
    set_enable 2 ∷ set_priority 1 ∷ set_source 1 true ∷ claim ∷ set_source 1 false ∷ complete 1 ∷ []

plic-refines_example :
    plic_trace interrupted quiet_plic ≡ gateway_trace interrupted (gateway quiet_plic)
plic-refines_example = plic-refines interrupted quiet_plic quiet-IsGated

abbrev raised_plic : Plic
raised_plic = record quiet_plic {
  priority1 = 1;
  enable_m = 2;
  source_pending1 = true;
  pending1 = true;
}

raised-IsGated : IsGated raised_plic
unfolding IsGated
raised-IsGated = refl

raised-enabled : plic_source1_enabled raised_plic ≡ true
unfolding plic_source1_enabled
raised-enabled = refl

complete-reraises_example :
    plic_trace (claim ∷ replicate 3 (set_source 1 true) ++ (complete 1 ∷ [])) raised_plic
    ≡ (1, false) ∷ replicate 3 (0, false) ++ ((0, true) ∷ [])
complete-reraises_example = complete-reraises 3 raised_plic raised-IsGated refl refl raised-enabled

write_clint-safe_example :
    (timer_irq_pending (write_clint clint_mtimecmp_high 0xFFFFFFFF start_clint) ≡ false)
    × (timer_irq_pending (
          write_clint clint_mtimecmp_low 100
            (write_clint clint_mtimecmp_high 0xFFFFFFFF start_clint))
        ≡ false)
    × (write_clint clint_mtimecmp_high 0 (
          write_clint clint_mtimecmp_low 100
            (write_clint clint_mtimecmp_high 0xFFFFFFFF start_clint))
        ≡ record start_clint { mtimecmp = 100 + 2 ^ 32 * 0 })
write_clint-safe_example =
    write_clint-safe start_clint 100 0 (omega arith) (omega arith) (omega arith) (omega arith)

set_divisor-send_example :
    ((send (72 ∷ 105 ∷ []) (set_divisor 1 0 3 start_uart)).dll ≡ 1)
    × ((send (72 ∷ 105 ∷ []) (set_divisor 1 0 3 start_uart)).dlm ≡ 0)
    × ((send (72 ∷ 105 ∷ []) (set_divisor 1 0 3 start_uart)).ier ≡ 1)
    × ((send (72 ∷ 105 ∷ []) (set_divisor 1 0 3 start_uart)).out ≡ 105 ∷ 72 ∷ [])
    × ((send (72 ∷ 105 ∷ []) (set_divisor 1 0 3 start_uart)).tx_bytes ≡ 2)
set_divisor-send_example =
    set_divisor-send 1 0 3 (72 ∷ 105 ∷ []) start_uart (omega arith) refl (omega arith)

read_u32-write_u32_example :
    ((write_phys_u32 0x80000001 0x12345678 start).0 ≡ true)
    × (read_phys_u32 0x80000001 ((write_phys_u32 0x80000001 0x12345678 start).1) ≡ some 0x12345678)
    × ((b : ℕ)
        → (leb 0x80000001 b && ltb b 0x80000005) ≡ false
        → read_phys_byte b ((write_phys_u32 0x80000001 0x12345678 start).1)
          ≡ read_phys_byte b start)
read_u32-write_u32_example =
    read_u32-write_u32 0x80000001 start start-IsWords 0x12345678 (omega arith) refl refl

write_store-Assigned_example :
    Assigned 2 0x80000012 0xABCD start (write_store 0x80000012 0xABCD 8 start)
write_store-Assigned_example =
    write_store-Assigned 0x80000012 0xABCD 8 start start-IsWords refl (inr (inl refl)) refl
      (omega arith)

write_store-Kept_example : (write_store 0x00000FFF 5 8 start).bootrom_words ≡ start.bootrom_words
write_store-Kept_example = write_store-Kept 0x00000FFF 5 8 start (omega arith)

write_half-crossing_example :
    Assigned 1 0x80000003 0xABCD start (write_half 0x80000003 0xABCD start)
write_half-crossing_example =
    write_half-crossing 0x80000003 0xABCD start start-IsWords refl refl refl (omega arith)

is_ebreak-halves_example : is_ebreak_insn_word (0x0073 + 0x0010 * 2 ^ 16) 4 ≡ (
    if 4 % 4 == 0
    then (0x0073 == 0x9002) || ((0x0073 == 0x0073) && (0x0010 == 0x0010))
    else if 4 % 4 == 2
    then 0x0010 == 0x9002
    else false)
is_ebreak-halves_example = is_ebreak-halves 0x0073 0x0010 4 (omega arith) (omega arith)
