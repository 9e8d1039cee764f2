-- ===== src/Ramdisk/Disk.antt =====
-- ramdisk_blk.c as a disk: what any sequence of its requests does to a flat array of bytes.
use linux_kernel_ldd.Prelude.{
  ℕ, ◌-◌, ◌≤◌, ◌≡◌, refl, ap, ◌∙◌, Option, none, some, List, [], ◌∷◌, arith, length, take, drop,
  length-take,
}
use mathlib.Core.Option
use linux_kernel_ldd.Ramdisk.{
  nr_sectors, Request, reads, writes, Served, request_handle, BlkStatus, blk_sts_ok,
  ramdisk_blkdev_queue_rq, dev_size, byte_pos, handle_read,
}
use linux_kernel_ldd.Ramdisk.Segments.{joined, patched, length-patched}
use linux_kernel_ldd.Ramdisk.Filling.{filled, buffers, handle_read_clips}
use linux_kernel_ldd.Ramdisk.Clipping.{handle_write_clips}

-- The device takes its requests one by one. Of a request's end the status and the bytes of its buffers
-- are kept.
abbrev pub End : Type 0
End = BlkStatus × List ℕ

abbrev pub consed : {A B : Type 0} → A → List A × B → List A × B
consed a (list, b) = (a ∷ list, b)

pub queue : List Request → List ℕ → Option (List End × List ℕ)
unfolding ramdisk_blkdev_queue_rq
queue [] memory = some ([], memory)
queue (rq ∷ rqs) memory = elim (ramdisk_blkdev_queue_rq rq memory) [
  | none ↦ none
  | some end ↦ Option.map (consed (end.0, joined end.1.bufs)) (queue rqs end.1.ram)
]

-- A flat array of bytes: a write puts its bytes from its place on, as many as fit; a read fills a buffer.
abbrev pub disk_after : Request → List ℕ → List ℕ
disk_after (reads sector bufs) disk = disk
disk_after (writes sector bufs) disk =
    patched (byte_pos sector) (take (dev_size - byte_pos sector) (joined bufs)) disk

abbrev pub bytes_after : Request → List ℕ → List ℕ
bytes_after (reads sector bufs) disk = filled (joined bufs) (drop (byte_pos sector) disk)
bytes_after (writes sector bufs) disk = joined bufs

pub disk : List Request → List ℕ → List End × List ℕ
disk [] bytes = ([], bytes)
disk (rq ∷ rqs) bytes = consed (blk_sts_ok, bytes_after rq bytes) (disk rqs (disk_after rq bytes))

-- A request starts in the device.
abbrev pub sector_of : Request → ℕ
sector_of (reads sector bufs) = sector
sector_of (writes sector bufs) = sector

abbrev pub StartsInside : List Request → Type 0
StartsInside [] = Unit
StartsInside (rq ∷ rqs) = (sector_of rq ≤ nr_sectors) × StartsInside rqs

abbrev ended : Option (BlkStatus × Served) → Option (End × List ℕ)
ended r = Option.map (λ end. ((end.0, joined end.1.bufs), end.1.ram)) r

ended-reads :
    (r : Option (List (List ℕ))) (memory bytes : List ℕ)
    → buffers r ≡ some bytes
    → ended (
        Option.map
          (λ s. (blk_sts_ok, s))
          (Option.map (λ bufs. record { ram = memory; bufs = bufs }) r))
      ≡ some ((blk_sts_ok, bytes), memory)
ended-reads Option.none memory bytes h = ground arith
ended-reads (some bufs) memory bytes h = ground arith

queue_rq-disk :
    (rq : Request) (memory : List ℕ)
    → length memory ≡ dev_size
    → sector_of rq ≤ nr_sectors
    → (ended (ramdisk_blkdev_queue_rq rq memory)
        ≡ some ((blk_sts_ok, bytes_after rq memory), disk_after rq memory))
      × (length (disk_after rq memory) ≡ dev_size)
unfolding ramdisk_blkdev_queue_rq request_handle
queue_rq-disk (reads sector bufs) memory size inside = (
  ended-reads (handle_read (byte_pos sector) bufs memory) memory _
      (handle_read_clips (byte_pos sector) bufs memory size (omega arith)),
  size,
)
queue_rq-disk (writes sector bufs) memory size inside =
    let off : ℕ = byte_pos sector in
    let part = take (dev_size - off) (joined bufs) in
    (
      ap
          (λ r. ended (
            Option.map (λ s. (blk_sts_ok, s))
              (Option.map (λ ram. record { ram = ram; bufs = bufs }) r)))
          (handle_write_clips off bufs memory size (omega arith)),
      length-patched off part memory (omega (arith, length-take (dev_size - off) (joined bufs)))
          ∙ size,
    )

queue_step :
    (rqs : List Request) (r : Option (BlkStatus × Served)) (status : BlkStatus)
    (bytes memory : List ℕ)
    → ended r ≡ some ((status, bytes), memory)
    → elim r [
      | none ↦ none
      | some end ↦ Option.map (consed (end.0, joined end.1.bufs)) (queue rqs end.1.ram)
    ]
      ≡ Option.map (consed (status, bytes)) (queue rqs memory)
queue_step rqs Option.none status bytes memory h = ground arith
queue_step rqs (some end) status bytes memory h = ground arith

-- On a memory of the device's size the device is that array: whatever requests come that start in it,
-- each ends well, whatever its length and the cut of its segments are, with the bytes that the array
-- gives, and the memory holds the array after them.
pub queue-disk :
    (rqs : List Request) (memory : List ℕ)
    → length memory ≡ dev_size
    → StartsInside rqs
    → queue rqs memory ≡ some (disk rqs memory)
unfolding queue disk
queue-disk [] memory size inside = refl
queue-disk (rq ∷ rqs) memory size inside =
    let (first, size') = queue_rq-disk rq memory size inside.0 in
    queue_step rqs (ramdisk_blkdev_queue_rq rq memory) blk_sts_ok (bytes_after rq memory)
      (disk_after rq memory) first
    ∙ ap (Option.map (consed (blk_sts_ok, bytes_after rq memory)))
        (queue-disk rqs (disk_after rq memory) size' inside.1)
