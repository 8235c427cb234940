-- ===== src/Npc/Bus/Rom.antt =====
-- The boot ROM of memory_models.h under the stores of the processor.
use Prim.Native.Nat.{bit_and}
use triathlon.Prelude.{
  ℕ, zero, suc, ◌+◌, ◌*◌, ◌/◌, ◌^◌, ◌<◌, Bool, true, false, ◌==◌, ◌≡◌, refl, ap, ◌∙◌, arith, inl,
  inr, Bool-cases, Option-cases,
}
use triathlon.Prelude.Words.{u8, u16, u32}
use triathlon.Npc.State.{UnifiedMem, in_bootrom}
use triathlon.Npc.Phys.{read_phys_u16}
use triathlon.Npc.Phys.Words.{aligned_lem}
use triathlon.Npc.Virtio.Ring.{virtio_push_used}
use triathlon.Npc.Virtio.Request.{virtio_process_blk_request}
use triathlon.Npc.Virtio.Device.{
  take_request, next_slot, notify_loop, raise_used, virtio_handle_notify, acknowledge,
  virtio_blk_reset_transport_state, write_virtio_register, virtio_mmio_write,
}
use triathlon.Npc.Virtio.Frames.{Frame, Frame-trans, process-Frame, push_used-Frame}
use triathlon.Npc.Bus.{
  access_touches_bootrom, touches_bootrom, write_pmem_word, write_aligned, write_word, read_word,
  replace, write_byte, write_two, write_half, write_store,
}

-- The words of the boot ROM are as before.
abbrev Kept : UnifiedMem → UnifiedMem → Type 0
Kept m m' = m'.bootrom_words ≡ m.bootrom_words

Frame-Kept : (m n : UnifiedMem) → Frame m n → Kept m n
unfolding Frame
Frame-Kept m n f = ap (λ (x : UnifiedMem). x.bootrom_words) f

take-Kept : (h : ℕ) (m : UnifiedMem) → Kept m (take_request h m)
unfolding take_request
take-Kept h m =
    let done = virtio_process_blk_request h m in
    let m' = virtio_push_used h done.used_len done.mem in
    Frame-Kept m m'
      (Frame-trans m done.mem m' (process-Frame h m) (push_used-Frame h done.used_len done.mem))

loop-Kept : (fuel idx : ℕ) (p : Bool) (m : UnifiedMem) → Kept m ((notify_loop fuel idx p m).1)
unfolding notify_loop
loop-Kept zero idx p m = refl
loop-Kept (suc fuel) idx p m = elim (Bool-cases (m.virtio.last_avail_idx == idx)) [
  | inl done ↦ rw (notify_loop, done) refl
  | inr more ↦ elim (Option-cases (read_phys_u16 (next_slot m) m)) [
    | inl e ↦ rw (notify_loop, more, e) refl
    | inr (h, e) ↦
        rw (notify_loop, more, e) (loop-Kept fuel idx true (take_request h m) ∙ take-Kept h m)
  ]
]

raise-Kept : (m : UnifiedMem) → Kept m (raise_used m)
unfolding raise_used
raise-Kept m = refl

notify-Kept : (i : ℕ) (m : UnifiedMem) → Kept m (virtio_handle_notify i m)
unfolding virtio_handle_notify raise_used
notify-Kept i m = grind (arith, loop-Kept)

register-Kept : (off value : ℕ) (m : UnifiedMem) → Kept m (write_virtio_register off value m)
unfolding write_virtio_register acknowledge virtio_blk_reset_transport_state
register-Kept off value m = ground (arith, notify-Kept value m)

mmio-Kept : (a value : ℕ) (m : UnifiedMem) → Kept m (virtio_mmio_write a value m)
unfolding virtio_mmio_write
mmio-Kept a value m = register-Kept _ value m

aligned-Kept :
    (a value : ℕ) (m : UnifiedMem) → in_bootrom a ≡ false → Kept m (write_aligned a value m)
unfolding write_aligned write_pmem_word
aligned-Kept a value m h = rw h (ground (arith, mmio-Kept a value m))

word-Kept :
    (a value : ℕ) (m : UnifiedMem)
    → a < 2 ^ 32
    → in_bootrom a ≡ false
    → Kept m (write_word a value m)
unfolding write_word
word-Kept a value m l h =
    let e : in_bootrom (a / 4 * 4) ≡ false = ground arith in
    rw (aligned_lem a l) (aligned-Kept (a / 4 * 4) value m e)

read-Kept : (a : ℕ) (m : UnifiedMem) → Kept m ((read_word a m).1)
unfolding read_word
read-Kept a m = ground arith

replace-Kept :
    (mask a value : ℕ) (m : UnifiedMem)
    → a < 2 ^ 32
    → in_bootrom a ≡ false
    → Kept m (replace mask a value m)
unfolding replace
replace-Kept mask a value m l h =
    let e : in_bootrom (a / 4 * 4) ≡ false = ground arith in
    rw (aligned_lem a l) (
      word-Kept (a / 4 * 4) _ ((read_word (a / 4 * 4) m).1) (omega arith) e
      ∙ read-Kept (a / 4 * 4) m)

byte-Kept :
    (a value : ℕ) (m : UnifiedMem)
    → a < 2 ^ 32
    → in_bootrom a ≡ false
    → Kept m (write_byte a value m)
unfolding write_byte
byte-Kept a value m l h = ground (arith, replace-Kept 0xff a value m l h)

two-Kept :
    (a value : ℕ) (m : UnifiedMem)
    → a < 2 ^ 32
    → in_bootrom a ≡ false
    → in_bootrom (u32 (a + 1)) ≡ false
    → Kept m (write_two a value m)
unfolding write_two
two-Kept a value m l h h' =
    byte-Kept (u32 (a + 1)) _ (write_byte a _ m) (omega arith) h' ∙ byte-Kept a _ m l h

half-Kept :
    (a value : ℕ) (m : UnifiedMem)
    → a < 2 ^ 32
    → in_bootrom a ≡ false
    → in_bootrom (u32 (a + 1)) ≡ false
    → Kept m (write_half a value m)
unfolding write_half
half-Kept a value m l h h' =
    ground (arith, two-Kept a value m l h h', replace-Kept 0xffff a value m l h)

-- The boot ROM is read-only to the processor: whatever the store unit stores, at any address, aligned
-- or not, and through whichever device, no word of the ROM changes.
pub write_store-Kept :
    (a value op : ℕ) (m : UnifiedMem)
    → a < 2 ^ 32
    → (write_store a value op m).bootrom_words ≡ m.bootrom_words
unfolding write_store access_touches_bootrom touches_bootrom
write_store-Kept a value op m l = ground (
  arith,
  byte-Kept a (u8 (bit_and value 0xff)) m l,
  half-Kept a (u16 (bit_and value 0xffff)) m l,
  word-Kept a value m l,
)
