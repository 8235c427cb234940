-- ===== src/Npc/Virtio/Reads.antt =====
-- What the driver gets from the block device of memory_models.h.
use triathlon.Prelude.{
  ℕ, zero, suc, ◌+◌, ◌-◌, ◌*◌, ◌^◌, ◌<◌, ◌≤◌, true, false, not, ◌==◌, ◌&&◌, leb, ltb, if◌then◌else◌,
  some, [], ◌∷◌, ◌≡◌, refl, sym, ap, ◌∙◌, arith,
}
use triathlon.Prelude.Words.{u64, u32}
use triathlon.Npc.State.{UnifiedMem, in_pmem}
use triathlon.Npc.Phys.{read_phys_byte, write_phys_byte, read_phys_u32, read_phys_u64}
use triathlon.Npc.Phys.Bytes.{IsWords, read-write_byte, write_byte-IsWords, write_ok}
use triathlon.Npc.Virtio.Ring.{VirtqDesc, dev_write, chain_from}
use triathlon.Npc.Virtio.Request.{
  move_byte, move_bytes, transfer, serve, process_chain, virtio_process_blk_request,
}

pub write_byte-virtio : (a v : ℕ) (m : UnifiedMem) → (write_phys_byte a v m).1.virtio ≡ m.virtio
unfolding write_phys_byte
write_byte-virtio a v m = ground arith

-- The bytes that `n` rounds from byte `b` on have brought from the image.
Filled : ℕ → ℕ → ℕ → ℕ → UnifiedMem → UnifiedMem → Type 0
Filled n b addr disk_off m m' =
    (x : ℕ)
    → read_phys_byte x m' ≡ (
        if leb (addr + b) x && ltb x (addr + b + n)
        then some (m.virtio.image (disk_off + (x - addr)))
        else read_phys_byte x m)

move_bytes-Filled :
    (n b addr disk_off : ℕ) (m : UnifiedMem)
    → IsWords m
    → ((j : ℕ) → m.virtio.image j < 2 ^ 8)
    → disk_off + b + n ≤ 2 ^ 64
    → ((j : ℕ) → j < n → in_pmem (addr + b + j) ≡ true)
    → ((move_bytes n b 0 addr disk_off m).0 ≡ true)
      × Filled n b addr disk_off m ((move_bytes n b 0 addr disk_off m).1)
      × IsWords ((move_bytes n b 0 addr disk_off m).1)
unfolding move_bytes move_byte Filled
move_bytes-Filled zero b addr disk_off m w img fits inside = (refl, λ x. ground arith, w)
move_bytes-Filled (suc n) b addr disk_off m w img fits inside =
    let same = write_byte-virtio (addr + b) v m in
    let rest =
      move_bytes-Filled n (b + 1) addr disk_off m1
        (write_byte-IsWords (addr + b) v m w (img (disk_off + b))) (rw same img) (omega arith)
        later in
    rw (at_addr, at_disk, write_ok (addr + b) v m here (img (disk_off + b)))
      (
        rest.0,
        λ x.
            rest.1 x
            ∙ rw (read-write_byte (addr + b) v x m w here (img (disk_off + b)), same) (added x),
        rest.2,
      )
  where
    v : ℕ
    v = m.virtio.image (disk_off + b)

    m1 : UnifiedMem
    m1 = (write_phys_byte (addr + b) v m).1

    here : in_pmem (addr + b) ≡ true
    here =
        let e : addr + b + 0 ≡ addr + b = omega arith in ap in_pmem (sym e) ∙ inside 0 (omega arith)

    at_addr : u64 (addr + b) ≡ addr + b
    at_addr = ground (arith, here)

    at_disk : u64 (disk_off + b) ≡ disk_off + b
    at_disk = omega arith

    later : (j : ℕ) → j < n → in_pmem (addr + (b + 1) + j) ≡ true
    later j lt =
        let e : addr + (b + 1) + j ≡ addr + b + suc j = omega arith in
        ap in_pmem e ∙ inside (suc j) (omega arith)

    added :
        (x : ℕ)
        → (if leb (addr + (b + 1)) x && ltb x (addr + (b + 1) + n)
            then some (m.virtio.image (disk_off + (x - addr)))
            else if x == addr + b
            then some v
            else read_phys_byte x m)
          ≡ (if leb (addr + b) x && ltb x (addr + b + suc n)
              then some (m.virtio.image (disk_off + (x - addr)))
              else read_phys_byte x m)
    added x = ground (arith, at)
      where
        at : x ≡ addr + b → m.virtio.image (disk_off + (x - addr)) ≡ v
        at e = let k : x - addr ≡ b = omega arith in rw k refl

-- A single descriptor that fits, moved whole.
pub transfer-one :
    (d : VirtqDesc) (t disk_off : ℕ) (m : UnifiedMem)
    → d.len < 2 ^ 32
    → ((t == 0) && not (dev_write d)) ≡ false
    → ((t == 1) && dev_write d) ≡ false
    → disk_off + d.len < 2 ^ 64
    → disk_off + d.len ≤ m.virtio.image_size
    → (move_bytes d.len 0 t d.addr disk_off m).0 ≡ true
    → transfer (d ∷ []) t disk_off 0 m ≡ (true, d.len, (move_bytes d.len 0 t d.addr disk_off m).1)
unfolding transfer
transfer-one d t disk_off m l b c fits inside ok =
    let e : u64 (disk_off + d.len) ≡ disk_off + d.len = omega arith in
    let size : ltb m.virtio.image_size (disk_off + d.len) ≡ false = ground arith in
    let len : u32 (0 + d.len) ≡ d.len = omega arith in rw (b, c, e, size, ok, len) refl

-- What `virtio_process_blk_request` comes to on a well-formed chain of three.
module _ (m : UnifiedMem) (head_idx t sector : ℕ) (h d s : VirtqDesc)
    (en : m.virtio.enabled_flag ≡ true) (q : 0 < m.virtio.queue_num)
    (chain : chain_from head_idx m ≡ some (h ∷ d ∷ s ∷ [])) (long : 16 ≤ h.len)
    (w : dev_write s ≡ true) (one : 0 < s.len) (type : read_phys_u32 h.addr m ≡ some t)
    (at : read_phys_u64 (u64 (h.addr + 8)) m ≡ some sector) where
  pub process-serve :
      t < 2 → virtio_process_blk_request head_idx m ≡ serve (h ∷ d ∷ s ∷ []) s.addr t sector m
  unfolding virtio_process_blk_request process_chain
  process-serve l =
      let nonzero : (m.virtio.queue_num == 0) ≡ false = ground arith in
      let header : ltb h.len 16 ≡ false = ground arith in
      let status : ltb s.len 1 ≡ false = ground arith in
      let known : (not (t == 0) && not (t == 1)) ≡ false = ground arith in
      rw (chain, nonzero, header, w, status, type, at, known) (ground arith)

  -- A read request: when the chain is header, data and status, the header asks for type 0 and a sector
  -- with `d.len` bytes of the image after it, and the data and the status byte lie in memory, the
  -- request succeeds, reports the length, and leaves in memory the status 0, the bytes of the image
  -- from the sector on in the data area (where the status byte does not overlap it), and every other
  -- byte as it was.
  pub read_request-delivers :
      IsWords m
      → ((j : ℕ) → m.virtio.image j < 2 ^ 8)
      → t ≡ 0
      → dev_write d ≡ true
      → d.len < 2 ^ 32
      → sector * 512 + d.len < 2 ^ 64
      → sector * 512 + d.len ≤ m.virtio.image_size
      → ((j : ℕ) → j < d.len → in_pmem (d.addr + j) ≡ true)
      → in_pmem s.addr ≡ true
      → ((virtio_process_blk_request head_idx m).ok ≡ true)
        × ((virtio_process_blk_request head_idx m).used_len ≡ d.len)
        × ((x : ℕ)
            → read_phys_byte x ((virtio_process_blk_request head_idx m).mem) ≡ (
                if x == s.addr
                then some 0
                else if leb d.addr x && ltb x (d.addr + d.len)
                then some (m.virtio.image (sector * 512 + (x - d.addr)))
                else read_phys_byte x m))
  unfolding serve Filled
  read_request-delivers words img z dw l fits inside area status =
      let off : u64 (sector * 512) ≡ sector * 512 = omega arith in
      let inside_area : (j : ℕ) → j < d.len → in_pmem (d.addr + 0 + j) ≡ true =
        λ j lt. let e : d.addr + 0 + j ≡ d.addr + j = omega arith in ap in_pmem e ∙ area j lt in
      let (ok, filled, words') =
        move_bytes-Filled d.len 0 d.addr (sector * 512) m words img (omega arith) inside_area in
      let moved = transfer-one d 0 (sector * 512) m l (rw dw refl) refl fits inside ok in
      rw (process-serve (omega arith), z, off, moved)
        (
          refl,
          refl,
          λ x.
              rw (read-write_byte s.addr 0 x _ words' status (omega arith), filled x)
                (ground arith),
        )
