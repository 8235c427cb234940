-- ===== src/Kernels/Yields.antt =====
-- The scheduler of am-kernels/kernels/yield-os. A context is a number.
use triathlon.Prelude.{ℕ, ◌≡◌, ◌≢◌, refl}

-- What `current` points at.
pub data Pcb : Type 0 where
  boot : Pcb
  first : Pcb
  second : Pcb

-- The saved contexts, and `current`.
pub record Pcbs : Type 0 where
  pub boot_cp : ℕ
  pub first_cp : ℕ
  pub second_cp : ℕ
  pub current : Pcb

-- `current->cp = prev`.
unfoldable pub save_cp : ℕ → Pcb → Pcbs → Pcbs
save_cp prev boot s = record s { boot_cp = prev }
save_cp prev first s = record s { first_cp = prev }
save_cp prev second s = record s { second_cp = prev }

unfoldable pub other : Pcb → Pcb
other first = second
other boot = first
other second = first

unfoldable pub cp_of : Pcb → Pcbs → ℕ
cp_of boot s = s.boot_cp
cp_of first s = s.first_cp
cp_of second s = s.second_cp

-- The context to go on with, and the state after it.
unfoldable pub schedule : ℕ → Pcbs → ℕ × Pcbs
schedule prev s =
    let s' = record (save_cp prev s.current s) { current = other s.current } in
    (cp_of s'.current s', s')

-- The state with these contexts.
resumed :
    (b f g c d : ℕ) (p : Pcb)
    → p ≢ boot
    → let s : Pcbs = record { boot_cp = b; first_cp = f; second_cp = g; current = p } in
      ((schedule d (schedule c s).1).0 ≡ c) × ((schedule d (schedule c s).1).1.current ≡ p)
unfolding schedule save_cp other cp_of
resumed b f g c d boot h = absurd (h refl)
resumed b f g c d first h = (refl, refl)
resumed b f g c d second h = (refl, refl)

-- Two switches in a row, from a thread that is not the boot code, go on with the context that the
-- first one interrupted, and run the same thread again.
pub schedule-schedule :
    (c d : ℕ) (s : Pcbs)
    → s.current ≢ boot
    → ((schedule d (schedule c s).1).0 ≡ c) × ((schedule d (schedule c s).1).1.current ≡ s.current)
schedule-schedule c d s h = resumed s.boot_cp s.first_cp s.second_cp c d s.current h
