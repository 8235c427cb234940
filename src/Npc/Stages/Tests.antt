-- ===== src/Npc/Stages/Tests.antt =====
-- The tracker of the boot stages on one reset.
use triathlon.Prelude.{◌≤◌, false, some, List, [], ◌∷◌, ◌≡◌, sym}
use triathlon.Prelude.Bits.{bit, bit-zero}
use triathlon.Npc.Stages.{View, Tracker}
use triathlon.Npc.Stages.Once.{Event, commit, IsOnce, count, track_all, track_all-IsOnce}

abbrev fresh : Tracker
fresh = record { seen_mask = 0; linux_entered = false; mmu_enabled_in_linux = false; emitted = [] }

fresh-IsOnce : IsOnce fresh
unfolding IsOnce
fresh-IsOnce i = sym (bit-zero i)

abbrev at_reset : View
at_reset = record {
  pc = 0x80000000;
  priv = 3;
  redirect_pc = 0;
  satp = 0;
  satp_old = 0;
  rob_flush_cause = 0;
  rf = some (λ i. 0);
}

abbrev twice : List Event
twice = commit at_reset ∷ commit at_reset ∷ []

track_all-IsOnce_example :
    (count 0 (track_all twice fresh).emitted ≡ bit 0 (track_all twice fresh).seen_mask)
    × (count 0 (track_all twice fresh).emitted ≤ 1)
track_all-IsOnce_example = track_all-IsOnce twice fresh fresh-IsOnce 0
