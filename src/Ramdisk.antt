-- ===== src/Ramdisk.antt =====
-- linux-device-drivers/21.ramdisk_blkdev/ramdisk_blk.c: a block device over a piece of memory.
pub mod Segments
pub mod Requests
pub mod Clipping
pub mod Filling
pub mod Disk
pub mod Cuts
pub mod Setup
pub mod Opens
mod Tests
use linux_kernel_ldd.Prelude.{
  ℕ, ◌+◌, ◌-◌, ◌*◌, ◌%◌, ◌^◌, Bool, not, ◌&&◌, Option, none, some, List, [], ◌∷◌, ◌++◌, ltb, leb,
  if◌then◌else◌, length, take, drop, ℤ, pos, is_neg, is_nonzero,
}
use mathlib.Core.Option
use linux_kernel_ldd.Kernel.Errno.{enomem, enotty}
use linux_kernel_ldd.Kernel.Replay.{
  memory, blkdev, tag_set, disk, disk_added, Log, Outcome, release, claims, frees, stop,
}

abbrev pub nr_sectors : ℕ
nr_sectors = 2048

abbrev pub media_sector_size : ℕ
media_sector_size = 512

abbrev pub dev_size : ℕ
dev_size = nr_sectors * media_sector_size

-- `blk_rq_pos(rq) << SECTOR_SHIFT`.
abbrev pub byte_pos : ℕ → ℕ
byte_pos sector = sector * 512

-- The length that a segment's copy has: `dev_size - pos` is of 64 bits, and wraps. `bv_len` is of 32
-- bits and a position of a disk is below 2 ^ 63, so that `pos + b_len` does not wrap.
abbrev pub clipped : ℕ → ℕ → ℕ
clipped off b_len = if ltb dev_size (off + b_len) then (dev_size + 2 ^ 64 - off) % 2 ^ 64 else b_len

-- `memcpy(dev->data + pos, b_buf, b_len)`; `none` where it leaves the memory or the buffer.
pub copy_in : ℕ → ℕ → List ℕ → List ℕ → Option (List ℕ)
copy_in off b_len b_buf ram =
    if leb (off + b_len) (length ram) && leb b_len (length b_buf)
    then some (take off ram ++ (take b_len b_buf ++ drop (off + b_len) ram))
    else none

-- `memcpy(b_buf, dev->data + pos, b_len)`: the buffer afterwards.
pub copy_out : ℕ → ℕ → List ℕ → List ℕ → Option (List ℕ)
copy_out off b_len b_buf ram =
    if leb (off + b_len) (length ram) && leb b_len (length b_buf)
    then some (take b_len (drop off ram) ++ drop b_len b_buf)
    else none

-- The loop of `request_handle` for a write, over the segments' buffers: the memory afterwards.
pub handle_write : ℕ → List (List ℕ) → List ℕ → Option (List ℕ)
handle_write off [] ram = some ram
handle_write off (b_buf ∷ segs) ram =
    let b_len = clipped off (length b_buf) in
    elim (copy_in off b_len b_buf ram) [
      | none ↦ none
      | some ram' ↦ handle_write (off + b_len) segs ram'
    ]

-- The loop of `request_handle` for a read: the segments' buffers afterwards.
pub handle_read : ℕ → List (List ℕ) → List ℕ → Option (List (List ℕ))
handle_read off [] ram = some []
handle_read off (b_buf ∷ segs) ram =
    let b_len = clipped off (length b_buf) in
    let rest = handle_read (off + b_len) segs ram in
    elim (copy_out off b_len b_buf ram) [
      | none ↦ none
      | some b_buf' ↦ Option.map (λ bufs. b_buf' ∷ bufs) rest
    ]

-- A request: its first sector, and the buffers of its segments.
pub data Request : Type 0 where
  reads : ℕ → List (List ℕ) → Request
  writes : ℕ → List (List ℕ) → Request

-- What a request leaves: the memory of the device, and the buffers.
pub record Served : Type 0 where
  pub ram : List ℕ
  pub bufs : List (List ℕ)

-- `request_handle`; it returns 0 where it returns.
pub request_handle : Request → List ℕ → Option Served
unfolding handle_read handle_write
request_handle (reads sector bufs) ram =
    Option.map (λ bufs'. record { ram = ram; bufs = bufs' })
      (handle_read (byte_pos sector) bufs ram)
request_handle (writes sector bufs) ram =
    Option.map (λ ram'. record { ram = ram'; bufs = bufs })
      (handle_write (byte_pos sector) bufs ram)

-- `blk_status_t`.
pub data BlkStatus : Type 0 where
  blk_sts_ok : BlkStatus
  blk_sts_ioerr : BlkStatus

-- `ramdisk_blkdev_queue_rq`: the status with which the request ends.
pub ramdisk_blkdev_queue_rq : Request → List ℕ → Option (BlkStatus × Served)
unfolding request_handle
ramdisk_blkdev_queue_rq rq ram = Option.map (λ served. (blk_sts_ok, served)) (request_handle rq ram)

-- `ramdisk_blkdev_ioctl` knows no command.
abbrev pub ramdisk_blkdev_ioctl : ℕ → ℤ
ramdisk_blkdev_ioctl cmd = enotty

-- What the kernel answers to each call of the set-up. The pointer of the first `kzalloc` is used
-- before it is tested.
pub record Answers : Type 0 where
  pub kzalloc_dev : Bool
  pub register_blkdev : ℤ
  pub kzalloc_data : Bool
  pub blk_mq_alloc_tag_set : ℤ
  pub blk_mq_alloc_disk : ℤ
  pub add_disk : ℤ

-- The labels of `setup_rmablkdev`. `unregister_blkdev` gives back a number that was registered, and
-- `memory 0` is the device, `memory 1` its data.
abbrev pub err_alloc : ℤ → Outcome
err_alloc ret = frees blkdev (frees (memory 0) (stop ret))

abbrev pub err_alloc_tag : ℤ → Outcome
err_alloc_tag ret = frees (memory 1) (err_alloc ret)

abbrev pub err_mq_alloc : ℤ → Outcome
err_mq_alloc ret = frees tag_set (err_alloc_tag ret)

-- `del_gendisk` on a disk that `add_disk` did not add.
abbrev pub err_add_disk : ℤ → Outcome
err_add_disk ret = frees disk_added (err_mq_alloc ret)

-- `setup_rmablkdev`.
pub setup_rmablkdev : Answers → Outcome
setup_rmablkdev a =
    if not a.kzalloc_data
    then err_alloc enomem
    else claims (memory 1) (
        if is_nonzero a.blk_mq_alloc_tag_set
        then err_alloc_tag a.blk_mq_alloc_tag_set
        else claims tag_set (
            if is_neg a.blk_mq_alloc_disk
            then err_mq_alloc a.blk_mq_alloc_disk
            else claims disk (
                if is_nonzero a.add_disk
                then err_add_disk a.add_disk
                else claims disk_added (stop (pos 0)))))

-- `ramdisk_blkdev_init`; `none` is the use of the NULL pointer. A major number below 0 is not tested.
pub ramdisk_blkdev_init : Answers → Option Outcome
unfolding setup_rmablkdev
ramdisk_blkdev_init a =
    if not a.kzalloc_dev
    then none
    else some (
        claims (memory 0) (
          if is_neg a.register_blkdev
          then setup_rmablkdev a
          else claims blkdev (setup_rmablkdev a)))

-- `ramdisk_blkdev_exit` after a successful set-up, where no partition was opened.
pub ramdisk_blkdev_exit : Log
ramdisk_blkdev_exit =
    release disk_added
    ∷ release tag_set
    ∷ release (memory 1)
    ∷ release blkdev
    ∷ release (memory 0)
    ∷ []
