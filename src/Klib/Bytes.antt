-- ===== src/Klib/Bytes.antt =====
-- Strings and copies in memory, as the theorems on string.c speak of them.
use triathlon.Prelude.{
  ℕ, ◌+◌, ◌-◌, ◌≤◌, ◌<◌, ◌≡◌, ◌≢◌, ◌⊎◌, inl, inr, fun_ext, ◌&&◌, arith, ltb, leb, if◌then◌else◌,
}
use triathlon.Prelude.Store.{Store, update}

-- `n` characters and a terminator at `s`.
pub record IsString (m : Store) (s n : ℕ) : Type 0 where
  pub ends : m (s + n) ≡ 0
  pub full : (i : ℕ) → i < n → m (s + i) ≢ 0

-- Every cell holds a byte.
abbrev pub AreBytes : Store → Type 0
AreBytes m = (i : ℕ) → m i < 256

-- What `n` cells from `src` on, taken all at once, look like at `dst`.
abbrev pub copied : Store → ℕ → ℕ → ℕ → Store
copied m dst src n k = if leb dst k && ltb k (dst + n) then m (src + (k - dst)) else m k

pub copied_none : (m : Store) (dst src : ℕ) → copied m dst src 0 ≡ m
copied_none m dst src = fun_ext (λ k. ground arith)

copied_at :
    (m : Store) (dst src i k : ℕ)
    → update (copied m dst src i) (dst + i) (m (src + i)) k ≡ copied m dst src (i + 1) k
unfolding update
copied_at m dst src i k = grind arith

-- One cell more.
pub copied_next :
    (m : Store) (dst src i : ℕ)
    → update (copied m dst src i) (dst + i) (m (src + i)) ≡ copied m dst src (i + 1)
copied_next m dst src i = fun_ext (copied_at m dst src i)

-- The two runs share no cell.
abbrev pub Apart : ℕ → ℕ → ℕ → Type 0
Apart dst src n = (dst + n ≤ src) ⊎ (src + n ≤ dst)

pub copied_source :
    (m : Store) (dst src n i : ℕ)
    → Apart dst src n
    → i < n
    → copied m dst src i (src + i) ≡ m (src + i)
copied_source m dst src n i (inl h) l = ground arith
copied_source m dst src n i (inr h) l = ground arith
