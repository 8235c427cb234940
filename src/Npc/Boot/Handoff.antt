-- ===== src/Npc/Boot/Handoff.antt =====
-- What the stub of boot_loader.h hands over to the firmware.
use triathlon.Prelude.{
  ℕ, ◌+◌, ◌*◌, ◌/◌, ◌%◌, ◌^◌, ◌<◌, ◌≤◌, true, false, ◌==◌, if◌then◌else◌, List, [], ◌∷◌, ◌++◌, ◌≡◌,
  ◌≢◌, refl, ap, ◌∙◌, arith, inl, inr, ◌⊎◌, Bool-cases, fun_ext,
}
use triathlon.Prelude.Bits.{bit_and_mask}
use triathlon.Prelude.Words.{u32, ◌>>◌}
use triathlon.Prelude.Store.{Store, update, update_self}
use triathlon.Npc.Boot.{
  BootHandoff, insn_lui, insn_addi, insn_csrrw, insn_jalr, low12_of, emit_load_imm32, set_satp,
  csr_satp, make_boot_handoff_stub,
}
use triathlon.Npc.Boot.Hart.{Hart, execute, run, sign_extend}
use triathlon.Npc.Boot.Encoding.{lui-execute, addi-execute, csrrw-execute, jalr-execute}

update-update : (s : Store) (r a b : ℕ) → update (update s r a) r b ≡ update s r b
unfolding update
update-update s r a b = fun_ext λ j. ground arith

low12-lem : (value : ℕ) → low12_of value % 2 ^ 12 ≡ value % 2 ^ 12
unfolding low12_of
low12-lem value = rw (bit_and_mask 12 value) (ground arith)

-- Rounding the upper part up makes good for a negative lower part.
parts :
    (v : ℕ)
    → v < 2 ^ 32
    → ((v + 0x800) % 2 ^ 32 / 2 ^ 12 * 2 ^ 12 + sign_extend (v % 2 ^ 12)) % 2 ^ 32 ≡ v
parts v l = ground arith

run-step :
    (at w : ℕ) (ws : List ℕ) (h : Hart)
    → h.pc ≡ at
    → run at (w ∷ ws) h ≡ run (at + 4) ws (execute w h)
unfolding run
run-step at w ws h e = let same : (h.pc == at) ≡ true = ground arith in rw same refl

-- The two instructions put any 32-bit value into any register but register 0, and change no other.
load-run :
    (at rd v : ℕ) (ws : List ℕ) (h : Hart)
    → h.pc ≡ at
    → at + 8 < 2 ^ 32
    → 0 < rd
    → rd < 32
    → v < 2 ^ 32
    → run at (emit_load_imm32 rd v ++ ws) h
      ≡ run (at + 4 + 4) ws (record h { pc = at + 4 + 4; regs = update h.regs rd v })
unfolding emit_load_imm32
load-run at rd v ws h e la r0 lr lv =
    let hi = u32 (v + 0x800) >> 12 in
    let next = insn_addi rd rd (low12_of v) in
    let h1 : Hart = record h { pc = at + 4; regs = update h.regs rd (hi * 2 ^ 12) } in
    let h2 : Hart = record h { pc = at + 4 + 4; regs = update h.regs rd v } in
    let nz : (rd == 0) ≡ false = ground arith in
    let pc1 : (h.pc + 4) % 2 ^ 32 ≡ at + 4 = omega arith in
    let pc2 : (at + 4 + 4) % 2 ^ 32 ≡ at + 4 + 4 = omega arith in
    let first : execute (insn_lui rd hi) h ≡ h1 =
      lui-execute rd hi h lr (omega arith) ∙ rw (nz, pc1) refl in
    let second : execute next h1 ≡ h2 =
      addi-execute rd rd (low12_of v) h1 lr lr
      ∙ rw (low12-lem v, nz, update_self h.regs rd (hi * 2 ^ 12), parts v lv, update-update, pc2)
          refl in
    run-step at _ _ h e
    ∙ ap (run (at + 4) (next ∷ ws)) first
    ∙ run-step (at + 4) _ _ h1 refl
    ∙ ap (run (at + 4 + 4) ws) second

-- Register 12 carries a translation base that is not 0.
abbrev with_satp : ℕ → Store → Store
with_satp v s = if v == 0 then s else update s 12 v

satp-run :
    (at v : ℕ) (ws : List ℕ) (h : Hart)
    → h.pc ≡ at
    → at + 12 < 2 ^ 32
    → v < 2 ^ 32
    → (b : ℕ) × (at ≤ b)
      × (b ≤ at + 12)
      × (run at (set_satp v ++ ws) h
          ≡ run b ws (record { pc = b; regs = with_satp v h.regs; satp = v }))
unfolding set_satp emit_load_imm32
satp-run at v ws h e la lv = elim (Bool-cases (v == 0)) [
  | inl zero ↦
      let pc : (h.pc + 4) % 2 ^ 32 ≡ at + 4 = omega arith in
      let is_zero : v ≡ 0 = ground arith in
      let done : execute (insn_csrrw 0 0 csr_satp) h ≡ record h { pc = at + 4; satp = v } =
        csrrw-execute 0 h (omega arith) ∙ rw (pc, is_zero) refl in
      (at + 4, omega arith, omega arith, rw zero (run-step at _ ws h e ∙ ap (run (at + 4) ws) done))
  | inr some ↦
      let h2 : Hart = record h { pc = at + 4 + 4; regs = update h.regs 12 v } in
      let pc : (at + 4 + 4 + 4) % 2 ^ 32 ≡ at + 4 + 4 + 4 = omega arith in
      let done : execute (insn_csrrw 0 12 csr_satp) h2
          ≡ record h2 { pc = at + 4 + 4 + 4; satp = v } =
        csrrw-execute 12 h2 (omega arith) ∙ rw (update_self h.regs 12 v, pc) refl in
      (
        at + 4 + 4 + 4,
        omega arith,
        omega arith,
        rw some (
            load-run at 12 v (insn_csrrw 0 12 csr_satp ∷ ws) h e (omega arith) (omega arith)
              (omega arith) lv
            ∙ run-step (at + 4 + 4) _ ws h2 refl
            ∙ ap (run (at + 4 + 4 + 4) ws) done),
      )
]

-- The jump, which leaves the program.
jump-run :
    (at : ℕ) (h : Hart)
    → h.pc ≡ at
    → h.regs 1 < 2 ^ 32
    → h.regs 1 % 2 ≡ 0
    → h.regs 1 ≢ at + 4
    → run at (insn_jalr 0 1 0 ∷ 0x00000013 ∷ []) h ≡ record h { pc = h.regs 1 }
unfolding run
jump-run at h e l even out =
    let pc : h.regs 1 % 2 ^ 32 / 2 * 2 ≡ h.regs 1 = omega arith in
    let same : (h.pc == at) ≡ true = ground arith in
    let left : (h.regs 1 == at + 4) ≡ false = ground arith in
    rw (same, jalr-execute h, pc, left) refl

-- The state in which the firmware starts.
started : ℕ → BootHandoff → Hart → Hart
started entry o h = record {
  pc = entry;
  regs = update (with_satp o.satp (update (update h.regs 10 o.hartid) 11 o.dtb_addr)) 1 entry;
  satp = o.satp;
}

module _ (base entry : ℕ) (o : BootHandoff) (h : Hart) (at : h.pc ≡ base)
    (room : base + 64 ≤ 2 ^ 32) (outside : (entry < base) ⊎ (base + 64 ≤ entry))
    (even : entry % 2 ≡ 0) (le : entry < 2 ^ 32) (lh : o.hartid < 2 ^ 32) (ld : o.dtb_addr < 2 ^ 32)
    (ls : o.satp < 2 ^ 32) where
  stub-started : run base (make_boot_handoff_stub entry o) h ≡ started entry o h
  unfolding make_boot_handoff_stub started
  stub-started =
      let h1 : Hart = record h { pc = base + 4 + 4; regs = update h.regs 10 o.hartid } in
      let b2 = base + 4 + 4 + 4 + 4 in
      let h2 : Hart = record h1 { pc = b2; regs = update h1.regs 11 o.dtb_addr } in
      let tail = insn_jalr 0 1 0 ∷ 0x00000013 ∷ [] in
      let (b3, l3, u3, e3) =
        satp-run b2 o.satp (emit_load_imm32 1 entry ++ tail) h2 refl (omega arith) ls in
      let h3 : Hart = record { pc = b3; regs = with_satp o.satp h2.regs; satp = o.satp } in
      let h4 : Hart = record h3 { pc = b3 + 4 + 4; regs = update h3.regs 1 entry } in
      let r1 = update_self h3.regs 1 entry in
      load-run base 10 o.hartid _ h at (omega arith) (omega arith) (omega arith) lh
      ∙ load-run (base + 4 + 4) 11 o.dtb_addr _ h1 refl (omega arith) (omega arith) (omega arith) ld
      ∙ e3
      ∙ load-run b3 1 entry tail h3 refl (omega arith) (omega arith) (omega arith) le
      ∙ jump-run (b3 + 4 + 4) h4 refl (rw r1 le) (rw r1 even) (rw r1 (ground arith))
      ∙ ap (λ p. record h4 { pc = p }) r1

  -- The handoff stub, run by the manual's rules from its first word: it reaches the entry of the
  -- firmware (an even address outside the stub) with the hart number in register 10, the device
  -- tree's address in register 11 and the translation base in `satp`, whatever their 32-bit values,
  -- and every register but 1, 10, 11 and 12 is as it was.
  pub stub-hands_over :
      ((run base (make_boot_handoff_stub entry o) h).pc ≡ entry)
      × ((run base (make_boot_handoff_stub entry o) h).regs 10 ≡ o.hartid)
      × ((run base (make_boot_handoff_stub entry o) h).regs 11 ≡ o.dtb_addr)
      × ((run base (make_boot_handoff_stub entry o) h).satp ≡ o.satp)
      × ((j : ℕ)
          → j ≢ 1
          → j ≢ 10
          → j ≢ 11
          → j ≢ 12
          → (run base (make_boot_handoff_stub entry o) h).regs j ≡ h.regs j)
  unfolding started update
  stub-hands_over =
      rw stub-started (refl, ground arith, ground arith, refl, λ j a b c d. ground arith)
