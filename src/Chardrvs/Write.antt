-- ===== src/Chardrvs/Write.antt =====
-- chardrvs_write_fifo and chardrvs_read_fifo, call by call.
use linux_kernel_ldd.Prelude.{
  ℕ, ◌≤◌, ◌<◌, ◌≡◌, ◌≢◌, ◌↔◌, Bool, true, false, List, ◌∷◌, [], ◌++◌, pos, length, take, arith,
}
use linux_kernel_ldd.Kernel.Errno.{erestartsys}
use linux_kernel_ldd.Kernel.Kfifo.{Kfifo}
use linux_kernel_ldd.Chardrvs.{
  Dev, returned, asleep, write_wait, write_fifo, read_copy, read_update, poll_dev, pollout,
  setup_chardrvs,
}

module _ (k : Kfifo) where
  open k use {Fifo, contents, size, kfifo_avail}

  -- The cached `avail` never promises room that the FIFO lacks.
  pub record IsSound (d : Dev Fifo) : Type 0 where
    pub promised : d.avail ≤ kfifo_avail d.myfifo

  -- After a successful set-up the cached room is sound, the FIFO is empty and no mutex is held.
  pub setup-IsSound :
      (fsize : ℕ) (d : Dev Fifo)
      → let d' = (setup_chardrvs k fsize (pos 0) d).1 in
        IsSound d' × (contents d'.myfifo ≡ []) × (d'.w_f_lock ≡ false) × (d'.r_f_lock ≡ false)
  unfolding setup_chardrvs
  setup-IsSound fsize d =
      ground (arith, k.contents-fresh fsize, k.size-fresh fsize, k.avail_lem (k.fresh fsize))

  -- Where the cached room is sound, a write that finds its mutex free and enough room takes the whole
  -- of a readable buffer, says so, frees its mutex and leaves the cached room exact.
  pub write_fifo_complete :
      (signal : Bool) (buf : List ℕ) (count : ℕ) (d : Dev Fifo)
      → IsSound d
      → d.w_f_lock ≡ false
      → count ≤ d.avail
      → count ≤ length buf
      → let (out, bytes, d') = write_fifo k signal buf count d in
        (out ≡ returned (pos count))
        × (bytes ≡ take count buf)
        × (contents d'.myfifo ≡ contents d.myfifo ++ take count buf)
        × (d'.w_f_lock ≡ false)
        × (d'.avail ≡ kfifo_avail d'.myfifo)
  unfolding write_fifo
  write_fifo_complete signal buf count d s free fits readable =
      ground (arith, k.from_user_ok d.myfifo buf count, k.from_user_contents d.myfifo buf count)

  -- `poll` reports POLLOUT exactly where a write of one readable byte, its mutex free, does not wait.
  pub poll_iff :
      (byte : ℕ) (d : Dev Fifo)
      → d.w_f_lock ≡ false
      → (poll_dev d ≡ pollout) ↔ ((write_fifo k false (byte ∷ []) 1 d).0 ≢ asleep)
  unfolding poll_dev write_fifo
  poll_iff byte d free = (λ h. ground arith, λ h. ground arith)

  -- A write that a signal takes out of its wait for room returns with its mutex still held.
  pub write_fifo_leaks :
      (buf : List ℕ) (count : ℕ) (d : Dev Fifo)
      → d.w_f_lock ≡ false
      → d.avail < count
      → write_fifo k true buf count d ≡ (returned erestartsys, [], record d { w_f_lock = true })
  unfolding write_fifo
  write_fifo_leaks buf count d free full = ground arith

  -- The reader's wake-up comes before its update of `avail`: a writer that waits for more room than
  -- `avail` says and runs in between sleeps on, though the read has made enough room and it would go
  -- ahead after the update.
  pub wake_too_early :
      (room n : ℕ) (buf : List ℕ) (count : ℕ) (d : Dev Fifo)
      → d.avail < count
      → count ≤ kfifo_avail (read_copy k room n d).2.myfifo
      → let d' = (read_copy k room n d).2 in
        ((write_wait k false buf count d').0 ≡ asleep)
        × ((write_wait k false buf count (read_update k d')).0 ≢ asleep)
  unfolding read_copy read_update write_wait
  wake_too_early room n buf count d low fits = (ground arith, ground arith)
