-- ===== src/Npc/Difftest/Agreement.antt =====
-- What a passed comparison of difftest_client.cpp says.
use triathlon.Prelude.{
  ℕ, zero, suc, ◌+◌, ◌<◌, ◌≤◌, true, false, ◌==◌, Option, none, some, ◌≡◌, refl, sym, ap, ◌∙◌,
  arith, inl, inr, Bool-cases,
}
use triathlon.Prelude.Store.{Store, update, update_self, update_ne}
use triathlon.Npc.Difftest.{
  RefState, Reference, Client, decode_mmio_load_rd, is_ignored, registers_agree, follow_load,
  step_and_check,
}

-- Every register but the ignored one agrees.
agree-all :
    (n reg : ℕ) (ignored : Option ℕ) (ref dut : Store)
    → registers_agree n reg ignored ref dut ≡ true
    → (i : ℕ) → reg ≤ i
    → i < reg + n
    → is_ignored ignored i ≡ false
    → ref i ≡ dut i
unfolding registers_agree
agree-all zero reg ignored ref dut h i le lt ne = absurd (omega arith)
agree-all (suc n) reg ignored ref dut h i le lt ne =
    let tail : registers_agree n (reg + 1) ignored ref dut ≡ true = ground arith in
    elim (Bool-cases (i == reg)) [
      | inl here ↦
          let e : reg ≡ i = ground arith in
          let k : is_ignored ignored reg ≡ false = ap (is_ignored ignored) e ∙ ne in
          let same : ref reg ≡ dut reg = ground arith in ap ref (sym e) ∙ same ∙ ap dut e
      | inr there ↦ agree-all n (reg + 1) ignored ref dut tail i (ground arith) (omega arith) ne
    ]

-- Register 0 is always compared.
decode-nonzero : (inst : ℕ) (rf : Store) → is_ignored (decode_mmio_load_rd inst rf) 0 ≡ false
unfolding decode_mmio_load_rd is_ignored
decode-nonzero inst rf = ground arith

module _ {R : Type 0} (r : Reference R)
    (law : (s : RefState) (x : R) → r.regs_to_dut (r.regs_to_ref s x) ≡ s) where
  -- What is handed over makes the two sides agree.
  followed :
      (ignored : Option ℕ) (rf_after : Store) (d : Client R)
      → d.last_ref_state ≡ r.regs_to_dut d.ref
      → is_ignored ignored 0 ≡ false
      → registers_agree 32 0 ignored (r.regs_to_dut d.ref).gpr rf_after ≡ true
      → (i : ℕ) → i < 32
      → ((r.regs_to_dut ((follow_load r ignored rf_after (r.regs_to_dut d.ref) d).ref)).gpr i
          ≡ rf_after i)
        × ((follow_load r ignored rf_after (r.regs_to_dut d.ref) d).last_ref_state.gpr i
            ≡ rf_after i)
  unfolding follow_load is_ignored
  followed none rf_after d last z a i l =
      let e =
        agree-all 32 0 none (r.regs_to_dut d.ref).gpr rf_after a i (omega arith) (omega arith)
          refl in
      (e, ap (λ (x : RefState). x.gpr i) last ∙ e)
  followed (some rd) rf_after d last z a i l =
      let g = (r.regs_to_dut d.ref).gpr in
      let nonzero : (rd == 0) ≡ false = ground arith in
      let e : update g rd (rf_after rd) i ≡ rf_after i = elim (Bool-cases (i == rd)) [
        | inl here ↦
            let k : rd ≡ i = ground arith in
            ap (update g rd (rf_after rd)) (sym k) ∙ update_self g rd (rf_after rd) ∙ ap rf_after k
        | inr there ↦
            update_ne g rd (rf_after rd) i (ground arith)
            ∙ agree-all 32 0 (some rd) g rf_after a i (omega arith) (omega arith) there
      ] in
      rw (nonzero, law) (e, e)

  passed :
      (pc inst : ℕ) (rf_before rf_after : Store) (d : Client R)
      → d.enabled ≡ true
      → ((r.regs_to_dut d.ref).pc == pc) ≡ true
      → registers_agree 32 0
          (decode_mmio_load_rd inst rf_before)
          (r.regs_to_dut (r.difftest_exec 1 d.ref)).gpr
          rf_after
        ≡ true
      → step_and_check r pc inst rf_before rf_after d ≡ (
          let ref' = r.difftest_exec 1 d.ref in
          let ref_after = r.regs_to_dut ref' in
          (
            true,
            follow_load r
                (decode_mmio_load_rd inst rf_before)
                rf_after
                ref_after
                (record d { ref = ref'; last_ref_state = ref_after; has_last_ref_state = true }),
          ))
  unfolding step_and_check
  passed pc inst rf_before rf_after d en p a = rw (p, a) (ground arith)

  -- After a comparison that passes, while the comparison is enabled and the reference holds the
  -- registers that it is given: the reference stood at the committed program counter, and now all 32
  -- registers of the reference, and of the state that is remembered, are those of the processor
  -- (a register that a device load wrote included, since its value was handed over).
  pub step-agrees :
      (pc inst : ℕ) (rf_before rf_after : Store) (d : Client R)
      → d.enabled ≡ true
      → (step_and_check r pc inst rf_before rf_after d).0 ≡ true
      → ((r.regs_to_dut d.ref).pc ≡ pc)
        × ((i : ℕ)
            → i < 32
            → ((r.regs_to_dut ((step_and_check r pc inst rf_before rf_after d).1.ref)).gpr i
                ≡ rf_after i)
              × ((step_and_check r pc inst rf_before rf_after d).1.last_ref_state.gpr i
                  ≡ rf_after i))
  unfolding step_and_check
  step-agrees pc inst rf_before rf_after d en ok =
      let ref' = r.difftest_exec 1 d.ref in
      let ignored = decode_mmio_load_rd inst rf_before in
      let p : ((r.regs_to_dut d.ref).pc == pc) ≡ true = ground arith in
      let a : registers_agree 32 0 ignored (r.regs_to_dut ref').gpr rf_after ≡ true =
        ground arith in
      (
        ground arith,
        λ i l. rw (passed pc inst rf_before rf_after d en p a) (
            followed ignored rf_after
              (record d {
                ref = ref';
                last_ref_state = r.regs_to_dut ref';
                has_last_ref_state = true;
              })
              refl (decode-nonzero inst rf_before) a i l),
      )
