-- ===== src/Prelude/Store.antt =====
-- A C array of numbers as a function from its indices, and one assignment to it.
use Prim.Native.Nat.{ℕ}
use mathlib.Core.Path.{◌≡◌}
use mathlib.Core.Logic.{◌≢◌}
use native.Mathlib.Omega.{arith}
use triathlon.Prelude.Tests.{◌==◌, if◌then◌else◌}

abbrev pub Store : Type 0
Store = ℕ → ℕ

-- `m[i] = v`.
unfoldable pub update : Store → ℕ → ℕ → Store
update m i v j = if j == i then v else m j

pub update_self : (m : Store) (i v : ℕ) → update m i v i ≡ v
unfolding update
update_self m i v = ground arith

pub update_ne : (m : Store) (i v j : ℕ) → j ≢ i → update m i v j ≡ m j
unfolding update
update_ne m i v j h = ground arith
