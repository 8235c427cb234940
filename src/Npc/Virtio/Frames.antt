-- ===== src/Npc/Virtio/Frames.antt =====
-- What a request of the block device of memory_models.h may change: guest memory and the image.
use triathlon.Prelude.{
  ℕ, zero, suc, ◌+◌, ◌*◌, ◌%◌, Bool, true, false, not, if◌then◌else◌, Option, none, some, List, [],
  ◌∷◌, ◌≡◌, refl, ap, ◌∙◌, arith,
}
use triathlon.Prelude.Words.{u16, u32, u64}
use triathlon.Npc.State.{UnifiedMem}
use triathlon.Npc.Phys.{
  write_phys_byte, write_bytes, write_phys_u16, write_phys_u32, read_phys_byte,
}
use triathlon.Npc.Virtio.Ring.{VirtqDesc, put_used, virtio_push_used}
use triathlon.Npc.Virtio.Request.{
  store_byte, move_byte, move_bytes, transfer, serve, unsupported, process_chain,
  virtio_process_blk_request, middle,
}

-- Every register and every other device is as before.
unfoldable pub Frame : UnifiedMem → UnifiedMem → Type 0
Frame m m' =
    m'
    ≡ record m { pmem_words = m'.pmem_words; virtio = record m.virtio { image = m'.virtio.image } }

pub Frame-refl : (m : UnifiedMem) → Frame m m
unfolding Frame
Frame-refl m = refl

pub Frame-trans : (m n o : UnifiedMem) → Frame m n → Frame n o → Frame m o
unfolding Frame
Frame-trans m n o p q =
    q
    ∙ ap
        (λ (x : UnifiedMem). record x {
          pmem_words = o.pmem_words;
          virtio = record x.virtio { image = o.virtio.image };
        })
        p

write_byte-Frame : (a v : ℕ) (m : UnifiedMem) → Frame m ((write_phys_byte a v m).1)
unfolding write_phys_byte Frame
write_byte-Frame a v m = ground arith

-- The two ways out of a loop that stops at a failed access.
stop_or_go :
    (ok : Bool) (m m1 : UnifiedMem) (rest : Bool × UnifiedMem)
    → Frame m m1
    → Frame m1 (rest.1)
    → Frame m ((if not ok then (false, m1) else rest).1)
stop_or_go true m m1 rest p q = Frame-trans m m1 (rest.1) p q
stop_or_go false m m1 rest p q = p

write_bytes-Frame : (n i a v : ℕ) (m : UnifiedMem) → Frame m ((write_bytes n i a v m).1)
unfolding write_bytes
write_bytes-Frame zero i a v m = Frame-refl m
write_bytes-Frame (suc n) i a v m =
    stop_or_go _ m _ _ (write_byte-Frame _ _ m) (write_bytes-Frame n (i + 1) a v _)

store_byte-Frame : (r : Option ℕ) (d : ℕ) (m : UnifiedMem) → Frame m ((store_byte r d m).1)
unfolding store_byte Frame
store_byte-Frame none d m = refl
store_byte-Frame (some v) d m = refl

move_byte-Frame : (t a d : ℕ) (m : UnifiedMem) → Frame m ((move_byte t a d m).1)
unfolding move_byte
move_byte-Frame t a d m =
    ground
      (arith, write_byte-Frame a (m.virtio.image d) m, store_byte-Frame (read_phys_byte a m) d m)

pub move_bytes-Frame : (n b t a d : ℕ) (m : UnifiedMem) → Frame m ((move_bytes n b t a d m).1)
unfolding move_bytes
move_bytes-Frame zero b t a d m = Frame-refl m
move_bytes-Frame (suc n) b t a d m =
    stop_or_go _ m _ _ (move_byte-Frame t _ _ m) (move_bytes-Frame n (b + 1) t a d _)

pub transfer-Frame :
    (ds : List VirtqDesc) (t d u : ℕ) (m : UnifiedMem) → Frame m ((transfer ds t d u m).2)
unfolding transfer
transfer-Frame [] t d u m = Frame-refl m
transfer-Frame (x ∷ ds) t d u m =
    let m1 = (move_bytes x.len 0 t x.addr d m).1 in
    let first = move_bytes-Frame x.len 0 t x.addr d m in
    let later =
      Frame-trans m m1 _ first (transfer-Frame ds t (u64 (d + x.len)) (u32 (u + x.len)) m1) in
    ground (arith, Frame-refl m, first, later)

serve-Frame : (ds : List VirtqDesc) (a t s : ℕ) (m : UnifiedMem) → Frame m ((serve ds a t s m).mem)
unfolding serve
serve-Frame ds a t s m =
    Frame-trans m _ _ (transfer-Frame (middle ds) t _ 0 m) (write_byte-Frame a _ _)

process_chain-Frame : (ds : List VirtqDesc) (m : UnifiedMem) → Frame m ((process_chain ds m).mem)
unfolding process_chain unsupported
process_chain-Frame ds m = grind (arith, Frame-refl m, serve-Frame, write_byte-Frame)

pub process-Frame : (h : ℕ) (m : UnifiedMem) → Frame m ((virtio_process_blk_request h m).mem)
unfolding virtio_process_blk_request
process-Frame h m = grind (arith, Frame-refl m, process_chain-Frame)

put_used-Frame : (i h l : ℕ) (m : UnifiedMem) → Frame m (put_used i h l m)
unfolding put_used write_phys_u32 write_phys_u16
put_used-Frame i h l m =
    let e = u64 (m.virtio.queue_used + 4 + i % m.virtio.queue_num * 8) in
    let m1 = (write_bytes 4 0 e h m).1 in
    let m2 = (write_bytes 4 0 (u64 (e + 4)) l m1).1 in
    let m3 = (write_bytes 2 0 (u64 (m.virtio.queue_used + 2)) (u16 (i + 1)) m2).1 in
    let f1 = write_bytes-Frame 4 0 e h m in
    let f2 = Frame-trans m m1 m2 f1 (write_bytes-Frame 4 0 (u64 (e + 4)) l m1) in
    let f3 =
      Frame-trans m m2 m3 f2
        (write_bytes-Frame 2 0 (u64 (m.virtio.queue_used + 2)) (u16 (i + 1)) m2) in
    ground (arith, f1, f2, f3)

pub push_used-Frame : (h l : ℕ) (m : UnifiedMem) → Frame m (virtio_push_used h l m)
unfolding virtio_push_used
push_used-Frame h l m = grind (arith, Frame-refl m, put_used-Frame)
