-- ===== src/Npc/Stages/Once.antt =====
-- The tracker of linux_boot_stage.h reports every stage at most once.
use Prim.Native.Nat.{bit_and, bit_or}
use native.Mathlib.Nat.{one-le-pow}
use triathlon.Prelude.{
  ℕ, ◌+◌, ◌*◌, ◌^◌, ◌≤◌, Bool, true, false, ◌==◌, if◌then◌else◌, Option, none, some, List, [], ◌∷◌,
  ◌≡◌, sym, ap, ◌∙◌, arith, Bool-cases, inl, inr,
}
use triathlon.Prelude.Bits.{bit, bit-lt, bit-or, bit-two_pow, bit_and_pow}
use triathlon.Prelude.Words.{truth, ◌<<◌}
use triathlon.Prelude.Store.{Store}
use triathlon.Npc.Stages.{
  View, Tracker, maybe_emit, emit_if, hand_off, opensbi_stages, linux_stages, dtb_stages,
  commit_cases, on_commit, enable_mmu, satp_cases, on_satp_change, flush_cases, on_flush,
}

abbrev pub count : ℕ → List ℕ → ℕ
count i [] = 0
count i (x ∷ xs) = (if i == x then 1 else 0) + count i xs

-- Stage `i` has been printed as often as bit `i` of the mask says: never or once.
unfoldable pub IsOnce : Tracker → Type 0
IsOnce t = (i : ℕ) → count i t.emitted ≡ bit i t.seen_mask

-- The test of a bit that is not set.
new_bit : (k m : ℕ) → truth (bit_and m (1 << k)) ≡ false → bit k m ≡ 0
new_bit k m h =
    let e : 1 * 2 ^ k ≡ 2 ^ k = omega arith in
    let f : bit k m * 2 ^ k ≡ 0 = sym (ap (bit_and m) e ∙ bit_and_pow m k) ∙ ground arith in
    let g : 1 ≤ 2 ^ k = one-le-pow k 2 (omega arith) in digit (bit k m) (2 ^ k) f g
  where
    digit : (b p : ℕ) → b * p ≡ 0 → 1 ≤ p → b ≡ 0
    digit b p f g = grind arith

emit-IsOnce : (stage : ℕ) (t : Tracker) → IsOnce t → IsOnce (maybe_emit stage t)
unfolding maybe_emit IsOnce
emit-IsOnce stage t h = elim (Bool-cases (truth (bit_and t.seen_mask (1 << stage)))) [
  | inl seen ↦ rw (maybe_emit, seen) h
  | inr new ↦ rw (maybe_emit, new) (λ i. added i (new_bit stage t.seen_mask new))
]
  where
    added :
        (i : ℕ)
        → bit stage t.seen_mask ≡ 0
        → (if i == stage then 1 else 0) + count i t.emitted
          ≡ bit i (bit_or t.seen_mask (1 << stage))
    added i z =
        let e : 1 * 2 ^ stage ≡ 2 ^ stage = omega arith in
        rw (e, bit-or, bit-two_pow i stage, h i)
          (ground (arith, bit-lt i t.seen_mask, ap (λ j. bit j t.seen_mask)))

emit_if-IsOnce : (b : Bool) (stage : ℕ) (t : Tracker) → IsOnce t → IsOnce (emit_if b stage t)
unfolding emit_if
emit_if-IsOnce true stage t h = emit-IsOnce stage t h
emit_if-IsOnce false stage t h = h

entered-IsOnce : (b : Bool) (t : Tracker) → IsOnce t → IsOnce (record t { linux_entered = b })
unfolding IsOnce
entered-IsOnce b t h = h

enabled-IsOnce :
    (b : Bool) (t : Tracker) → IsOnce t → IsOnce (record t { mmu_enabled_in_linux = b })
unfolding IsOnce
enabled-IsOnce b t h = h

hand_off-IsOnce : (v : View) (t : Tracker) → IsOnce t → IsOnce (hand_off v t)
unfolding hand_off
hand_off-IsOnce v t h = let e = emit-IsOnce 3 _ (entered-IsOnce true t h) in ground arith

mmu-IsOnce : (v : View) (t : Tracker) → IsOnce t → IsOnce (enable_mmu v t)
unfolding enable_mmu
mmu-IsOnce v t h = let e = emit-IsOnce 7 _ (enabled-IsOnce true t h) in ground arith

commit_cases-IsOnce :
    (v : View) (o : Option Store) (t : Tracker) → IsOnce t → IsOnce (commit_cases v o t)
unfolding commit_cases dtb_stages linux_stages opensbi_stages
commit_cases-IsOnce v none t h = h
commit_cases-IsOnce v (some rf) t h =
    let h0 = emit_if-IsOnce _ 2 _ (emit_if-IsOnce _ 1 _ (emit_if-IsOnce _ 0 t h)) in
    let h1 = emit_if-IsOnce _ 5 _ (emit_if-IsOnce _ 4 _ (hand_off-IsOnce v _ h0)) in
    let h2 = emit_if-IsOnce _ 11 _ (emit_if-IsOnce _ 9 _ (emit_if-IsOnce _ 6 _ h1)) in
    emit_if-IsOnce _ 14 _ (emit_if-IsOnce _ 12 _ h2)

satp_cases-IsOnce :
    (v : View) (o : Option Store) (t : Tracker) → IsOnce t → IsOnce (satp_cases v o t)
unfolding satp_cases
satp_cases-IsOnce v none t h = h
satp_cases-IsOnce v (some rf) t h = elim (Bool-cases (v.satp_old == v.satp)) [
  | inl same ↦ rw (satp_cases, same) h
  | inr changed ↦ rw (satp_cases, changed) (emit_if-IsOnce _ 10 _ (mmu-IsOnce v t h))
]

flush_cases-IsOnce :
    (v : View) (p : ℕ) (o : Option Store) (t : Tracker) → IsOnce t → IsOnce (flush_cases v p o t)
unfolding flush_cases
flush_cases-IsOnce v p none t h = h
flush_cases-IsOnce v p (some rf) t h = emit_if-IsOnce _ 13 _ (emit_if-IsOnce _ 8 t h)

-- What the simulator reports to the tracker.
pub data Event : Type 0 where
  commit : View → Event
  satp_change : View → Event
  flush : View → ℕ → Event

unfoldable pub track : Event → Tracker → Tracker
track (commit v) t = on_commit v t
track (satp_change v) t = on_satp_change v t
track (flush v p) t = on_flush v p t

unfoldable pub track_all : List Event → Tracker → Tracker
track_all [] t = t
track_all (e ∷ es) t = track_all es (track e t)

track-IsOnce : (e : Event) (t : Tracker) → IsOnce t → IsOnce (track e t)
unfolding track on_commit on_satp_change on_flush
track-IsOnce (commit v) t h = let e = commit_cases-IsOnce v v.rf t h in ground arith
track-IsOnce (satp_change v) t h = let e = satp_cases-IsOnce v v.rf t h in ground arith
track-IsOnce (flush v p) t h = let e = flush_cases-IsOnce v p v.rf t h in ground arith

-- Along any sequence of commits, changes of the translation base and flushes, every stage is printed
-- as often as its bit in the mask of seen stages says, so at most once.
pub track_all-IsOnce :
    (es : List Event) (t : Tracker)
    → IsOnce t
    → (i : ℕ)
    → (count i (track_all es t).emitted ≡ bit i (track_all es t).seen_mask)
      × (count i (track_all es t).emitted ≤ 1)
unfolding track_all IsOnce
track_all-IsOnce [] t h i = (h i, omega (arith, h i, bit-lt i t.seen_mask))
track_all-IsOnce (e ∷ es) t h i = track_all-IsOnce es (track e t) (track-IsOnce e t h) i
