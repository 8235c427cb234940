-- ===== src/Npc/Virtio/Served.antt =====
-- The rounds of the doorbell of memory_models.h: the requests that are completed, one by one.
use triathlon.Prelude.{
  ◌*◌, Option, List, [], ◌∷◌, ◌∙◌, ℕ, zero, suc, ◌+◌, ◌-◌, ◌%◌, ◌^◌, ◌<◌, ◌≤◌, Bool, true, false,
  ◌==◌, ◌||◌, none, some, ◌≡◌, ◌≢◌, refl, ap, ◌⊎◌, inl, inr, arith, Bool-cases, Option-cases,
}
use triathlon.Prelude.Words.{u16}
use triathlon.Npc.State.{UnifiedMem}
use triathlon.Npc.Phys.{read_phys_u16}
use triathlon.Npc.Virtio.Ring.{virtio_push_used}
use triathlon.Npc.Virtio.Request.{virtio_process_blk_request}
use triathlon.Npc.Virtio.Device.{take_request, next_slot, notify_loop}
use triathlon.Npc.Virtio.Frames.{Frame, Frame-trans, process-Frame, push_used-Frame}

Frame-last : (m n : UnifiedMem) → Frame m n → n.virtio.last_avail_idx ≡ m.virtio.last_avail_idx
unfolding Frame
Frame-last m n f = ap (λ (x : UnifiedMem). x.virtio.last_avail_idx) f

take-last :
    (h : ℕ) (m : UnifiedMem)
    → (take_request h m).virtio.last_avail_idx ≡ u16 (m.virtio.last_avail_idx + 1)
unfolding take_request
take-last h m =
    let done = virtio_process_blk_request h m in
    let m' = virtio_push_used h done.used_len done.mem in
    ap (λ n. u16 (n + 1))
      (Frame-last m m'
        (Frame-trans m done.mem m' (process-Frame h m) (push_used-Frame h done.used_len done.mem)))

-- `m'` is `m` after the request whose chain begins at descriptor `h`: the chain has been processed,
-- its head and the length of its answer stand in the used ring, and the index is one further.
abbrev pub Completed : ℕ → UnifiedMem → UnifiedMem → Type 0
Completed h m m' =
    let done = virtio_process_blk_request h m in
    let pushed = virtio_push_used h done.used_len done.mem in
    m' ≡ record pushed {
      virtio = record pushed.virtio { last_avail_idx = (m.virtio.last_avail_idx + 1) % 2 ^ 16 };
    }

-- The head that the available ring holds for the next request.
abbrev pub available : UnifiedMem → Option ℕ
available m =
    read_phys_u16
      ((m.virtio.queue_avail + 4 + m.virtio.last_avail_idx % m.virtio.queue_num * 2) % 2 ^ 64) m

-- From `m` to the last state, the requests with these heads are completed in turn, each the one that
-- the next slot of the available ring names, until there is none before `idx`, or a slot cannot be
-- read.
pub data Served (idx : ℕ) : List ℕ → UnifiedMem → UnifiedMem → Type 0 where
  all : {m : UnifiedMem} → m.virtio.last_avail_idx ≡ idx → Served idx [] m m
  unreadable :
      {m : UnifiedMem} → m.virtio.last_avail_idx ≢ idx → available m ≡ none → Served idx [] m m
  next :
      {m m' n : UnifiedMem} {h : ℕ} {hs : List ℕ}
      → m.virtio.last_avail_idx ≢ idx
      → available m ≡ some h
      → Completed h m m'
      → Served idx hs m' n
      → Served idx (h ∷ hs) m n

abbrev pub is_cons : List ℕ → Bool
is_cons [] = false
is_cons (h ∷ hs) = true

-- What the loop gives, where `before` tells whether a request was processed before it.
pub record Rounds (idx : ℕ) (before : Bool) (m : UnifiedMem) (out : Bool × UnifiedMem)
    : Type 0 where
  pub heads : List ℕ
  pub served : Served idx heads m (out.1)
  pub processed : out.0 ≡ (before || is_cons heads)
  pub ends : (out.1.virtio.last_avail_idx ≡ idx) ⊎ (available out.1 ≡ none)

or_true : (p : Bool) → true ≡ (p || true)
or_true true = refl
or_true false = refl

take-Completed : (h : ℕ) (m : UnifiedMem) → Completed h m (take_request h m)
unfolding take_request
take-Completed h m =
    let done = virtio_process_blk_request h m in
    let pushed = virtio_push_used h done.used_len done.mem in
    let f =
      Frame-trans m done.mem pushed (process-Frame h m)
        (push_used-Frame h done.used_len done.mem) in
    ap (λ i. record pushed { virtio = record pushed.virtio { last_avail_idx = u16 (i + 1) } })
      (Frame-last m pushed f)

available_lem : (m : UnifiedMem) → available m ≡ read_phys_u16 (next_slot m) m
unfolding next_slot
available_lem m = refl

pub loop-Rounds :
    (fuel idx : ℕ) (p : Bool) (m : UnifiedMem)
    → idx < 2 ^ 16
    → m.virtio.last_avail_idx < 2 ^ 16
    → (idx + (2 ^ 16 - m.virtio.last_avail_idx)) % 2 ^ 16 ≤ fuel
    → Rounds idx p m (notify_loop fuel idx p m)
unfolding notify_loop
loop-Rounds zero idx p m li lm enough =
    let e : m.virtio.last_avail_idx ≡ idx = omega arith in
    record { heads = []; served = all e; processed = ground arith; ends = inl e }
loop-Rounds (suc fuel) idx p m li lm enough = elim (Bool-cases (m.virtio.last_avail_idx == idx)) [
  | inl done ↦
      let e : m.virtio.last_avail_idx ≡ idx = ground arith in
      rw (notify_loop, done)
        (record { heads = []; served = all e; processed = ground arith; ends = inl e })
  | inr more ↦
      let ne : m.virtio.last_avail_idx ≢ idx = ground arith in
      elim (Option-cases (read_phys_u16 (next_slot m) m)) [
        | inl e ↦
            rw (notify_loop, more, e)
              (record {
                heads = [];
                served = unreadable ne (available_lem m ∙ e);
                processed = ground arith;
                ends = inr (available_lem m ∙ e);
              })
        | inr (h, e) ↦
            let index = take-last h m in
            let rest =
              loop-Rounds fuel idx true (take_request h m) li (omega (arith, index))
                (ground (arith, index)) in
            rw (notify_loop, more, e)
              (record {
                heads = h ∷ rest.heads;
                served = next ne (available_lem m ∙ e) (take-Completed h m) (rest.served);
                processed = rest.processed ∙ or_true p;
                ends = rest.ends;
              })
      ]
]
