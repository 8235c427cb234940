-- ===== src/Npc/Virtio/Writes.antt =====
-- What the driver stores through the block device of memory_models.h.
use triathlon.Prelude.{
  ℕ, zero, suc, ◌+◌, ◌-◌, ◌*◌, ◌^◌, ◌<◌, ◌≤◌, true, false, ◌==◌, ◌&&◌, leb, ltb, if◌then◌else◌,
  some, [], ◌∷◌, ◌≡◌, refl, sym, ap, ◌∙◌, arith, fun_ext,
}
use triathlon.Prelude.Words.{u64}
use triathlon.Prelude.Store.{Store, update}
use triathlon.Npc.State.{UnifiedMem, in_pmem}
use triathlon.Npc.Phys.{read_phys_byte, read_phys_u32, read_phys_u64}
use triathlon.Npc.Phys.Bytes.{IsWords, read-write_byte}
use triathlon.Npc.Virtio.Ring.{VirtqDesc, dev_write, chain_from}
use triathlon.Npc.Virtio.Request.{
  store_byte, move_byte, move_bytes, serve, virtio_process_blk_request,
}
use triathlon.Npc.Virtio.Reads.{transfer-one, process-serve, write_byte-virtio}

-- The memory with another image.
abbrev with_image : Store → UnifiedMem → UnifiedMem
with_image i m = record m { virtio = record m.virtio { image = i } }

with_image-read :
    (x : ℕ) (i : Store) (m : UnifiedMem) → read_phys_byte x (with_image i m) ≡ read_phys_byte x m
unfolding read_phys_byte
with_image-read x i m = refl

-- The image after `n` bytes of the guest from byte `b` on have come to it.
abbrev patched : ℕ → ℕ → ℕ → (ℕ → ℕ) → Store → Store
patched n b disk_off content image j =
    if leb (disk_off + b) j && ltb j (disk_off + b + n) then content (j - disk_off) else image j

patched-update :
    (n b disk_off : ℕ) (content : ℕ → ℕ) (image : Store)
    → patched n (b + 1) disk_off content (update image (disk_off + b) (content b))
      ≡ patched (suc n) b disk_off content image
unfolding update
patched-update n b disk_off content image = fun_ext λ j. ground (arith, at j)
  where
    at : (j : ℕ) → j ≡ disk_off + b → content (j - disk_off) ≡ content b
    at j e = let k : j - disk_off ≡ b = omega arith in rw k refl

move_bytes-patched :
    (n b addr disk_off : ℕ) (content : ℕ → ℕ) (m : UnifiedMem)
    → disk_off + b + n ≤ 2 ^ 64
    → addr + b + n ≤ 2 ^ 64
    → ((j : ℕ) → j < n → read_phys_byte (addr + b + j) m ≡ some (content (b + j)))
    → move_bytes n b 1 addr disk_off m
      ≡ (true, with_image (patched n b disk_off content m.virtio.image) m)
unfolding move_bytes move_byte store_byte
move_bytes-patched zero b addr disk_off content m fd fa given =
    ap (λ i. (true, with_image i m)) (fun_ext λ j. ground arith)
move_bytes-patched (suc n) b addr disk_off content m fd fa given =
    let at_addr : u64 (addr + b) ≡ addr + b = omega arith in
    let at_disk : u64 (disk_off + b) ≡ disk_off + b = omega arith in
    let e : addr + b + 0 ≡ addr + b = omega arith in
    let f : b + 0 ≡ b = omega arith in
    let here =
      ap (λ a. read_phys_byte a m) (sym e) ∙ given 0 (omega arith) ∙ ap (λ k. some (content k)) f in
    let m1 = with_image (update m.virtio.image (disk_off + b) (content b)) m in
    let later : (j : ℕ)
        → j < n
        → read_phys_byte (addr + (b + 1) + j) m1 ≡ some (content (b + 1 + j)) =
      λ j lt.
        let g : addr + (b + 1) + j ≡ addr + b + suc j = omega arith in
        let k : b + suc j ≡ b + 1 + j = omega arith in
        with_image-read _ _ m
        ∙ ap (λ a. read_phys_byte a m) g
        ∙ given (suc j) (omega arith)
        ∙ ap (λ i. some (content i)) k in
    rw (at_addr, at_disk, here)
      (move_bytes-patched n (b + 1) addr disk_off content m1 (omega arith) (omega arith) later
        ∙ ap (λ i. (true, with_image i m)) (patched-update n b disk_off content m.virtio.image))

module _ (m : UnifiedMem) (head_idx t sector : ℕ) (h d s : VirtqDesc)
    (en : m.virtio.enabled_flag ≡ true) (q : 0 < m.virtio.queue_num)
    (chain : chain_from head_idx m ≡ some (h ∷ d ∷ s ∷ [])) (long : 16 ≤ h.len)
    (w : dev_write s ≡ true) (one : 0 < s.len) (type : read_phys_u32 h.addr m ≡ some t)
    (at : read_phys_u64 (u64 (h.addr + 8)) m ≡ some sector) where
  -- A write request: when the chain is header, data and status, the header asks for type 1 and a sector
  -- with `d.len` bytes of the image after it, the driver's bytes `content` can be read from the data
  -- area and the status byte lies in memory, the request succeeds and reports the length; the image
  -- has the driver's bytes from the sector on and no other byte of it changes; and memory changes
  -- only in the status byte, which is 0.
  pub write_request-stores :
      IsWords m
      → t ≡ 1
      → dev_write d ≡ false
      → d.len < 2 ^ 32
      → sector * 512 + d.len < 2 ^ 64
      → sector * 512 + d.len ≤ m.virtio.image_size
      → d.addr + d.len ≤ 2 ^ 64
      → (content : ℕ → ℕ) → ((j : ℕ) → j < d.len → read_phys_byte (d.addr + j) m ≡ some (content j))
      → in_pmem s.addr ≡ true
      → ((virtio_process_blk_request head_idx m).ok ≡ true)
        × ((virtio_process_blk_request head_idx m).used_len ≡ d.len)
        × ((j : ℕ)
            → (virtio_process_blk_request head_idx m).mem.virtio.image j ≡ (
                if leb (sector * 512) j && ltb j (sector * 512 + d.len)
                then content (j - sector * 512)
                else m.virtio.image j))
        × ((x : ℕ)
            → read_phys_byte x ((virtio_process_blk_request head_idx m).mem)
              ≡ (if x == s.addr then some 0 else read_phys_byte x m))
  unfolding serve IsWords
  write_request-stores words z dw l fits inside reach content given status =
      let off : u64 (sector * 512) ≡ sector * 512 = omega arith in
      let bytes =
        move_bytes-patched d.len 0 d.addr (sector * 512) content m (omega arith) (omega arith)
          (λ j lt.
            let e : d.addr + 0 + j ≡ d.addr + j = omega arith in
            let f : 0 + j ≡ j = omega arith in rw (e, f) (given j lt)) in
      let m' = with_image (patched d.len 0 (sector * 512) content m.virtio.image) m in
      let moved =
        transfer-one d 1 (sector * 512) m l refl (rw dw refl) fits inside (rw bytes refl) in
      rw
        (
          process-serve m head_idx t sector h d s en q chain long w one type at (omega arith),
          z,
          off,
          moved,
          bytes,
        )
        (
          refl,
          refl,
          λ j. rw (write_byte-virtio s.addr 0 m') (ground arith),
          λ x.
              read-write_byte s.addr 0 x m' words status (omega arith)
              ∙ ap (λ r. if x == s.addr then some 0 else r)
                  (with_image-read x (patched d.len 0 (sector * 512) content m.virtio.image) m),
        )
