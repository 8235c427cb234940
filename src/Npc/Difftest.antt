-- ===== src/Npc/Difftest.antt =====
-- The comparison with a reference processor, npc/csrc/lib/difftest_client.cpp.
use Prim.Native.Nat.{bit_and}
use triathlon.Prelude.{
  ℕ, zero, suc, ◌+◌, ◌-◌, ◌*◌, ◌/◌, ◌%◌, ◌^◌, Bool, true, false, not, ◌&&◌, ◌||◌, ◌==◌, ltb, leb,
  if◌then◌else◌, Option, none, some, min,
}
use triathlon.Prelude.Words.{u32, shr_int, ◌<<◌, ◌>>◌}
use triathlon.Prelude.Store.{Store, update}
use triathlon.Npc.State.{pmem_base, pmem_size}
pub mod Agreement
mod Tests

-- `DifftestCPUState`; `DUTCSRState` is its last four fields.
pub record Csr : Type 0 where
  pub mtvec : ℕ
  pub mepc : ℕ
  pub mstatus : ℕ
  pub mcause : ℕ

pub record RefState : Type 0 where
  pub gpr : Store
  pub pc : ℕ
  pub csr : Csr

-- The functions of the shared library that holds the reference, on the states `R` that it can be in.
pub record Reference (R : Type 0) : Type 0 where
  pub difftest_init : ℕ → R → R
  pub difftest_memcpy : ℕ → Store → ℕ → R → R
  pub regs_to_dut : R → RefState
  pub regs_to_ref : RefState → R → R
  pub difftest_exec : ℕ → R → R

-- The object, with the state that the reference is in.
pub record Client (R : Type 0) : Type 0 where
  pub enabled : Bool
  pub has_last_ref_state : Bool
  pub last_ref_state : RefState
  pub ref : R

unfoldable pub sext12 : ℕ → ℕ
sext12 imm12 = shr_int (u32 (imm12 << 20)) 20

unfoldable pub is_mmio_addr : ℕ → Bool
is_mmio_addr addr = leb 0xA0000000 addr && leb addr 0xAFFFFFFF

-- The destination of a load from a device, which is not compared.
unfoldable pub decode_mmio_load_rd : ℕ → Store → Option ℕ
decode_mmio_load_rd inst rf_before =
    let rd = bit_and (inst >> 7) 0x1f in
    let rs1 = bit_and (inst >> 15) 0x1f in
    let imm = sext12 (bit_and (inst >> 20) 0xfff) in
    if not (bit_and inst 0x7f == 0x03)
    then none
    else if leb 32 rs1
    then none
    else if not (is_mmio_addr (u32 (rf_before rs1 + imm)))
    then none
    else if (rd == 0) || leb 32 rd
    then none
    else some rd

unfoldable pub is_ignored : Option ℕ → ℕ → Bool
is_ignored none reg = false
is_ignored (some rd) reg = reg == rd

-- The loop over the registers from `reg` on.
unfoldable pub registers_agree : ℕ → ℕ → Option ℕ → Store → Store → Bool
registers_agree zero reg ignored ref dut = true
registers_agree (suc n) reg ignored ref dut =
    let rest = registers_agree n (reg + 1) ignored ref dut in
    if is_ignored ignored reg then rest else if not (ref reg == dut reg) then false else rest

-- The bytes of the image, the rest zero.
unfoldable pub image_bytes : Store → ℕ → Store
image_bytes pmem_words size k =
    if ltb k (min size (pmem_size / 4) * 4)
    then bit_and (pmem_words (k / 4) >> (k % 4 * 8)) 0xff
    else 0

unfoldable pub boot_state : ℕ → RefState
boot_state entry_pc = record {
  gpr = λ i. 0;
  pc = entry_pc;
  csr = record { mtvec = 0; mepc = 0; mstatus = 0x1800; mcause = 0 };
}

module _ {R : Type 0} (r : Reference R) where
  -- `opened` is the library's initial state, if `dlopen` and `dlsym` find what they look for.
  unfoldable pub init : Option R → Store → ℕ → ℕ → Client R → Bool × Client R
  init none pmem_words size entry_pc d = (false, d)
  init (some opened) pmem_words size entry_pc d = (
    true,
    record {
      enabled = true;
      has_last_ref_state = true;
      last_ref_state = boot_state entry_pc;
      ref = r.regs_to_ref (boot_state entry_pc) (
          r.difftest_memcpy pmem_base (image_bytes pmem_words size) pmem_size
            (r.difftest_init 0 opened));
    },
  )

  -- The value of a skipped load goes to the reference.
  unfoldable pub follow_load : Option ℕ → Store → RefState → Client R → Client R
  follow_load none rf_after ref_after d = d
  follow_load (some rd) rf_after ref_after d =
      let ref_after' = record ref_after { gpr = update ref_after.gpr rd (rf_after rd) } in
      if not (rd == 0)
      then record d { ref = r.regs_to_ref ref_after' d.ref; last_ref_state = ref_after' }
      else d

  unfoldable pub step_and_check : ℕ → ℕ → Store → Store → Client R → Bool × Client R
  step_and_check pc inst rf_before rf_after d =
      let ref' = r.difftest_exec 1 d.ref in
      let ref_after = r.regs_to_dut ref' in
      let d' = record d { ref = ref'; last_ref_state = ref_after; has_last_ref_state = true } in
      let ignored = decode_mmio_load_rd inst rf_before in
      if not d.enabled
      then (true, d)
      else if not ((r.regs_to_dut d.ref).pc == pc)
      then (false, d)
      else if not (registers_agree 32 0 ignored ref_after.gpr rf_after)
      then (false, d')
      else (true, follow_load ignored rf_after ref_after d')

  unfoldable pub check_arch_state : Store → Csr → Client R → Bool
  check_arch_state rf_after dut_csr d =
      if not d.enabled || not d.has_last_ref_state
      then true
      else if not (registers_agree 32 0 none d.last_ref_state.gpr rf_after)
      then false
      else if not (d.last_ref_state.csr.mtvec == dut_csr.mtvec)
      then false
      else if not (d.last_ref_state.csr.mepc == dut_csr.mepc)
      then false
      else if not (d.last_ref_state.csr.mstatus == dut_csr.mstatus)
      then false
      else d.last_ref_state.csr.mcause == dut_csr.mcause
