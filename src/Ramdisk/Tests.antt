-- ===== src/Ramdisk/Tests.antt =====
-- The theorems about ramdisk_blk.c at work on a cleared device.
use linux_kernel_ldd.Prelude.{
  ℕ, ◌+◌, ◌-◌, ◌≤◌, ◌≡◌, refl, some, List, [], ◌∷◌, arith, length, replicate, length-replicate,
}
use linux_kernel_ldd.Ramdisk.{Request, reads, writes, dev_size, handle_write, handle_read}
use linux_kernel_ldd.Ramdisk.Segments.{joined, patched, lens}
use linux_kernel_ldd.Ramdisk.Disk.{queue, disk, queue-disk}
use linux_kernel_ldd.Ramdisk.Requests.{IsSized, handle_write_bounds, handle_write_lem, read-write}

-- `n` zero bytes.
zeros : ℕ → List ℕ
zeros n = replicate n 0

length-zeros : (n : ℕ) → length (zeros n) ≡ n
unfolding zeros
length-zeros n = length-replicate n 0

abbrev cleared : List ℕ
cleared = zeros dev_size

length-cleared : length cleared ≡ dev_size
length-cleared = length-zeros dev_size

abbrev two_segments : List (List ℕ)
two_segments = (1 ∷ 2 ∷ []) ∷ (3 ∷ []) ∷ []

abbrev blanks : List (List ℕ)
blanks = (0 ∷ 0 ∷ []) ∷ (0 ∷ []) ∷ []

fits : 512 + length (joined two_segments) ≤ dev_size
unfolding joined
fits = omega arith

same_lens : lens blanks ≡ lens two_segments
unfolding lens
same_lens = refl

handle_write_bounds_example : IsSized (handle_write (dev_size - 1) two_segments cleared)
handle_write_bounds_example =
    handle_write_bounds (dev_size - 1) two_segments cleared length-cleared (omega arith)

read-write_example :
    handle_read 512 blanks (patched 512 (joined two_segments) cleared) ≡ some two_segments
read-write_example =
    read-write 512 two_segments blanks cleared length-cleared fits same_lens
      (handle_write_lem 512 two_segments cleared length-cleared fits)

abbrev some_requests : List Request
some_requests = writes 1 two_segments ∷ reads 1 blanks ∷ writes 2048 two_segments ∷ []

queue-disk_example : queue some_requests cleared ≡ some (disk some_requests cleared)
queue-disk_example =
    queue-disk some_requests cleared length-cleared (omega arith, (omega arith, (omega arith, tt)))
