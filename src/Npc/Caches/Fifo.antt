-- ===== src/Npc/Caches/Fifo.antt =====
-- The data cache's requests of memory_models.h are answered in order, and all of them.
use triathlon.Prelude.{
  ℕ, Bool, true, false, ◌&&◌, ◌==◌, if◌then◌else◌, List, [], ◌∷◌, ◌++◌, map, ◌≡◌, refl, sym, ap,
  ◌∙◌, arith, ap₂, Bool-cases, inl, inr,
}
use triathlon.Npc.State.{UnifiedMem}
use triathlon.Npc.Caches.Signals.{Wires}
use triathlon.Npc.Caches.Dcache
use triathlon.Npc.Caches.Dcache.{MissTxn, DcacheModel}

-- A transaction without its clock.
pub record Request : Type 0 where
  pub addr : ℕ
  pub way : ℕ
  pub line : List ℕ

abbrev pub request : MissTxn → Request
request t = record { addr = t.miss_addr; way = t.miss_way; line = t.line_words }

-- What a state hands to the cache in the next cycle.
abbrev pub delivered : DcacheModel → List Request
delivered c = if c.refill_pulse then request c.refill_txn ∷ [] else []

pub record Cycle : Type 0 where
  pub mem : UnifiedMem
  pub wires : Wires

-- The model after cycles out of reset, what it has delivered and what was asked for meanwhile.
unfoldable pub after : List Cycle → DcacheModel → DcacheModel
after [] c = c
after (x ∷ xs) c = after xs (Dcache.observe true x.mem x.wires c)

unfoldable pub deliveries : List Cycle → DcacheModel → List Request
deliveries [] c = []
deliveries (x ∷ xs) c =
    let c' = Dcache.observe true x.mem x.wires c in delivered c' ++ deliveries xs c'

unfoldable pub requests : List Cycle → List Request
requests [] = []
requests (x ∷ xs) = map request (Dcache.requested x.mem x.wires) ++ requests xs

append_assoc {ℓ} : {A : Type ℓ} (xs ys zs : List A) → (xs ++ ys) ++ zs ≡ xs ++ (ys ++ zs)
append_assoc [] ys zs = refl
append_assoc (x ∷ xs) ys zs = ap (λ l. x ∷ l) (append_assoc xs ys zs)

pub append_nil {ℓ} : {A : Type ℓ} (xs : List A) → xs ++ [] ≡ xs
append_nil [] = refl
append_nil (x ∷ xs) = ap (λ l. x ∷ l) (append_nil xs)

map-append {ℓ κ} :
    {A : Type ℓ} {B : Type κ} (f : A → B) (xs ys : List A) → map f (xs ++ ys) ≡ map f xs ++ map f ys
map-append f [] ys = refl
map-append f (x ∷ xs) ys = ap (λ l. f x ∷ l) (map-append f xs ys)

-- Counting down does not change what is asked for.
count_down-request : (ts : List MissTxn) → map request (map Dcache.count_down ts) ≡ map request ts
unfolding Dcache.count_down
count_down-request [] = refl
count_down-request (t ∷ ts) = ap₂ (λ r rs. r ∷ rs) (one t) (count_down-request ts)
  where
    one : (t : MissTxn) → request (Dcache.count_down t) ≡ request t
    one t = ground arith

answer-fifo :
    (ready : Bool) (ts : List MissTxn) (c : DcacheModel)
    → c.refill_pulse ≡ false
    → delivered (Dcache.answer ready ts c) ++ map request ((Dcache.answer ready ts c).pending_q)
      ≡ map request ts
unfolding Dcache.answer
answer-fifo ready [] c p = rw p refl
answer-fifo ready (t ∷ ts) c p = elim (Bool-cases ((t.delay == 0) && ready)) [
  | inl due ↦ rw due refl
  | inr later ↦ rw (later, p) refl
]

observe-fifo :
    (m : UnifiedMem) (w : Wires) (c : DcacheModel)
    → delivered (Dcache.observe true m w c) ++ map request ((Dcache.observe true m w c).pending_q)
      ≡ map request c.pending_q ++ map request (Dcache.requested m w)
unfolding Dcache.observe
observe-fifo m w c =
    answer-fifo w.refill_ready_o (map Dcache.count_down (c.pending_q ++ Dcache.requested m w))
      (record c { refill_pulse = false }) refl
    ∙ count_down-request (c.pending_q ++ Dcache.requested m w)
    ∙ map-append request c.pending_q (Dcache.requested m w)

-- The refills are the requests, in the order in which they came: over any cycles out of reset, what has
-- been delivered followed by what is still queued is what was queued at first followed by what was
-- asked for, with the lines as memory had them when they were asked for.
pub deliveries-fifo :
    (xs : List Cycle) (c : DcacheModel)
    → deliveries xs c ++ map request ((after xs c).pending_q)
      ≡ map request c.pending_q ++ requests xs
unfolding deliveries after requests
deliveries-fifo [] c = sym (append_nil (map request c.pending_q))
deliveries-fifo (x ∷ xs) c =
    let c' = Dcache.observe true x.mem x.wires c in
    append_assoc (delivered c') (deliveries xs c') _
    ∙ ap (λ l. delivered c' ++ l) (deliveries-fifo xs c')
    ∙ sym (append_assoc (delivered c') (map request c'.pending_q) (requests xs))
    ∙ ap (λ l. l ++ requests xs) (observe-fifo x.mem x.wires c)
    ∙ append_assoc (map request c.pending_q) (map request (Dcache.requested x.mem x.wires))
        (requests xs)
