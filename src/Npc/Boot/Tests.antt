-- ===== src/Npc/Boot/Tests.antt =====
-- The hand-over to the firmware at one entry.
use triathlon.Prelude.{ℕ, ◌≡◌, ◌≢◌, refl, inr, arith}
use triathlon.Npc.Boot.{BootHandoff, make_boot_handoff_stub}
use triathlon.Npc.Boot.Hart.{Hart, run}
use triathlon.Npc.Boot.Handoff.{stub-hands_over}

abbrev paging : BootHandoff
paging = record { hartid = 3; dtb_addr = 0x83F00FFF; satp = 0x80080800 }

abbrev at_reset : Hart
at_reset = record { pc = 0x1000; regs = λ i. i; satp = 0 }

stub-hands_over_example :
    ((run 0x1000 (make_boot_handoff_stub 0x80020000 paging) at_reset).pc ≡ 0x80020000)
    × ((run 0x1000 (make_boot_handoff_stub 0x80020000 paging) at_reset).regs 10 ≡ 3)
    × ((run 0x1000 (make_boot_handoff_stub 0x80020000 paging) at_reset).regs 11 ≡ 0x83F00FFF)
    × ((run 0x1000 (make_boot_handoff_stub 0x80020000 paging) at_reset).satp ≡ 0x80080800)
    × ((j : ℕ)
        → j ≢ 1
        → j ≢ 10
        → j ≢ 11
        → j ≢ 12
        → (run 0x1000 (make_boot_handoff_stub 0x80020000 paging) at_reset).regs j ≡ j)
stub-hands_over_example =
    stub-hands_over 0x1000 0x80020000 paging at_reset refl (omega arith) (inr (omega arith)) refl
      (omega arith) (omega arith) (omega arith) (omega arith)
