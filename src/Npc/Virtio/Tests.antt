-- ===== src/Npc/Virtio/Tests.antt =====
-- The theorems on the block device at one queue.
use triathlon.Prelude.{
  ℕ, zero, suc, ◌+◌, ◌*◌, ◌%◌, ◌-◌, ◌^◌, ◌<◌, ◌==◌, ◌&&◌, ltb, leb, if◌then◌else◌, true, false,
  some, List, [], ◌∷◌, ◌≡◌, refl, arith,
}
use triathlon.Prelude.Store.{Store, update}
use triathlon.Npc.State.{UnifiedMem, Virtio}
use triathlon.Npc.Tests.{start}
use triathlon.Npc.Phys.{
  read_phys_byte, read_phys_u16, read_phys_u32, read_phys_u64, aligned, shift_of, word_index,
}
use triathlon.Npc.Phys.Bytes.{IsWords}
use triathlon.Npc.Virtio.Ring.{VirtqDesc, chain_from, follow, virtio_read_desc, has_next, dev_write}
use triathlon.Npc.Virtio.Request.{virtio_process_blk_request}
use triathlon.Npc.Virtio.Device.{virtio_handle_notify, virtio_mmio_write}
use triathlon.Npc.Virtio.Reads.{read_request-delivers}
use triathlon.Npc.Virtio.Writes.{write_request-stores}
use triathlon.Npc.Virtio.Drains.{Drained, handle_notify-Drained}
use triathlon.Npc.Virtio.Registers.{IsQueue, mmio_write-IsQueue}

-- Words by their index, the rest 0.
abbrev words_of : List (ℕ × ℕ) → Store
words_of [] i = 0
words_of ((j, w) ∷ rest) i = if i == j then w % 2 ^ 32 else words_of rest i

-- Three descriptors at 0x80000000 for a request at 0x80000100, two bytes of data at 0x80000200 and a
-- status byte at 0x80000300; `flags` is those of the data.
abbrev ring : ℕ → ℕ → List (ℕ × ℕ)
ring type flags =
    (0, 0x80000100)
    ∷ (2, 16)
    ∷ (3, 0x00010001)
    ∷ (4, 0x80000200)
    ∷ (6, 2)
    ∷ (7, 0x00020000 + flags)
    ∷ (8, 0x80000300)
    ∷ (10, 1)
    ∷ (11, 2)
    ∷ (64, type)
    ∷ (66, 1)
    ∷ (128, 0x4241)
    ∷ (256, 0x00010000)
    ∷ []

abbrev disk : Virtio
disk = record start.virtio {
  enabled_flag = true;
  image = λ i. i % 256;
  image_size = 1024;
  queue_num = 4;
  queue_ready = 1;
  queue_desc = 0x80000000;
  queue_avail = 0x80000400;
  queue_used = 0x80000500;
}

abbrev reading : UnifiedMem
reading = record start { pmem_words = words_of (ring 0 3); virtio = disk }

abbrev writing : UnifiedMem
writing = record start { pmem_words = words_of (ring 1 1); virtio = disk }

abbrev header : VirtqDesc
header = record { addr = 0x80000100; len = 16; flags = 1; next = 1 }

abbrev block : ℕ → VirtqDesc
block flags = record { addr = 0x80000200; len = 2; flags = flags; next = 2 }

abbrev status_byte : VirtqDesc
status_byte = record { addr = 0x80000300; len = 1; flags = 2; next = 0 }

words_of-lt : (l : List (ℕ × ℕ)) (i : ℕ) → words_of l i < 2 ^ 32
words_of-lt [] i = omega arith
words_of-lt ((j, w) ∷ rest) i = let h = words_of-lt rest i in ground arith

reading-IsWords : IsWords reading
unfolding IsWords
reading-IsWords i = words_of-lt (ring 0 3) i

writing-IsWords : IsWords writing
unfolding IsWords
writing-IsWords i = words_of-lt (ring 1 1) i

reading-chain : chain_from 0 reading ≡ some (header ∷ block 3 ∷ status_byte ∷ [])
unfolding chain_from follow virtio_read_desc has_next read_phys_u64 read_phys_u32 read_phys_u16
    read_phys_byte aligned shift_of word_index update
reading-chain = refl

writing-chain : chain_from 0 writing ≡ some (header ∷ block 1 ∷ status_byte ∷ [])
unfolding chain_from follow virtio_read_desc has_next read_phys_u64 read_phys_u32 read_phys_u16
    read_phys_byte aligned shift_of word_index update
writing-chain = refl

reading-type : read_phys_u32 0x80000100 reading ≡ some 0
unfolding read_phys_u32 read_phys_byte aligned shift_of word_index
reading-type = refl

writing-type : read_phys_u32 0x80000100 writing ≡ some 1
unfolding read_phys_u32 read_phys_byte aligned shift_of word_index
writing-type = refl

reading-sector : read_phys_u64 0x80000108 reading ≡ some 1
unfolding read_phys_u64 read_phys_u32 read_phys_byte aligned shift_of word_index
reading-sector = refl

writing-sector : read_phys_u64 0x80000108 writing ≡ some 1
unfolding read_phys_u64 read_phys_u32 read_phys_byte aligned shift_of word_index
writing-sector = refl

reading-index : read_phys_u16 0x80000402 reading ≡ some 1
unfolding read_phys_u16 read_phys_byte aligned shift_of word_index
reading-index = refl

writable : dev_write (block 3) ≡ true
unfolding dev_write
writable = refl

read_only : dev_write (block 1) ≡ false
unfolding dev_write
read_only = refl

status-writable : dev_write status_byte ≡ true
unfolding dev_write
status-writable = refl

abbrev letters : ℕ → ℕ
letters j = if j == 0 then 0x41 else 0x42

writing-letters : (j : ℕ) → j < 2 → read_phys_byte (0x80000200 + j) writing ≡ some (letters j)
unfolding read_phys_byte aligned shift_of word_index
writing-letters zero l = refl
writing-letters (suc zero) l = refl
writing-letters (suc (suc j)) l = absurd (omega arith)

read_request-delivers_example :
    ((virtio_process_blk_request 0 reading).ok ≡ true)
    × ((virtio_process_blk_request 0 reading).used_len ≡ 2)
    × ((x : ℕ)
        → read_phys_byte x ((virtio_process_blk_request 0 reading).mem) ≡ (
            if x == 0x80000300
            then some 0
            else if leb 0x80000200 x && ltb x (0x80000200 + 2)
            then some ((1 * 512 + (x - 0x80000200)) % 256)
            else read_phys_byte x reading))
read_request-delivers_example =
    read_request-delivers reading 0 0 1 header (block 3) status_byte refl (omega arith)
      reading-chain (omega arith) status-writable (omega arith) reading-type reading-sector
      reading-IsWords (λ j. omega arith) refl writable (omega arith) (omega arith) (omega arith)
      (λ j l. ground arith) refl

write_request-stores_example :
    ((virtio_process_blk_request 0 writing).ok ≡ true)
    × ((virtio_process_blk_request 0 writing).used_len ≡ 2)
    × ((j : ℕ)
        → (virtio_process_blk_request 0 writing).mem.virtio.image j
          ≡ (if leb (1 * 512) j && ltb j (1 * 512 + 2) then letters (j - 1 * 512) else j % 256))
    × ((x : ℕ)
        → read_phys_byte x ((virtio_process_blk_request 0 writing).mem)
          ≡ (if x == 0x80000300 then some 0 else read_phys_byte x writing))
write_request-stores_example =
    write_request-stores writing 0 1 1 header (block 1) status_byte refl (omega arith) writing-chain
      (omega arith) status-writable (omega arith) writing-type writing-sector writing-IsWords refl
      read_only (omega arith) (omega arith) (omega arith) (omega arith) letters writing-letters refl

handle_notify-Drained_example : Drained 1 reading (virtio_handle_notify 0 reading)
handle_notify-Drained_example =
    handle_notify-Drained reading 1 refl (omega arith) (omega arith) (omega arith) (omega arith)
      (omega arith) reading-index

disk-IsQueue : IsQueue disk
unfolding IsQueue
disk-IsQueue = omega arith

mmio_write-IsQueue_example : IsQueue ((virtio_mmio_write 0x10001038 64 reading).virtio)
mmio_write-IsQueue_example = mmio_write-IsQueue 0x10001038 64 reading (omega arith) disk-IsQueue
