-- ===== src/Npc/Difftest/Tests.antt =====
-- The comparison with a reference that only counts.
use triathlon.Prelude.{ℕ, ◌+◌, ◌<◌, true, ◌≡◌, refl}
use triathlon.Prelude.Store.{Store}
use triathlon.Npc.Difftest.{
  RefState, Reference, Client, step_and_check, registers_agree, decode_mmio_load_rd, is_ignored,
}
use triathlon.Npc.Difftest.Agreement.{step-agrees}

abbrev zeros : Store
zeros i = 0

abbrev cleared : RefState
cleared = record {
  gpr = zeros;
  pc = 0x80000000;
  csr = record { mtvec = 0; mepc = 0; mstatus = 0x1800; mcause = 0 };
}

-- The reference is its registers, and an instruction is four bytes long.
abbrev counting : Reference RefState
counting = record {
  difftest_init = λ port s. s;
  difftest_memcpy = λ a bytes n s. s;
  regs_to_dut = λ s. s;
  regs_to_ref = λ new s. new;
  difftest_exec = λ n s. record s { pc = s.pc + 4 };
}

abbrev client : Client RefState
client = record {
  enabled = true;
  has_last_ref_state = true;
  last_ref_state = cleared;
  ref = cleared;
}

client-passes : (step_and_check counting 0x80000000 0x00000013 zeros zeros client).0 ≡ true
unfolding step_and_check registers_agree decode_mmio_load_rd is_ignored
client-passes = refl

step-agrees_example :
    (cleared.pc ≡ 0x80000000)
    × ((i : ℕ)
        → i < 32
        → ((step_and_check counting 0x80000000 0x00000013 zeros zeros client).1.ref.gpr i ≡ 0)
          × ((step_and_check counting 0x80000000 0x00000013 zeros zeros client).1.last_ref_state.gpr
                i
              ≡ 0))
step-agrees_example =
    step-agrees counting (λ s x. refl) 0x80000000 0x00000013 zeros zeros client refl client-passes
