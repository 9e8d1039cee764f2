-- ===== src/Chardrvs.antt =====
-- linux-device-drivers/02.chardrvs/chardrvs.c and chardrvs.h: the FIFO character device with a
-- bounded number of users. A handler takes the device and returns it with what the caller gets; a
-- caller that sleeps is an outcome of its own, with the device as it is during the sleep. Set-up
-- and tear-down are in Chardrvs/Setup, the ioctl calls in Chardrvs/Ioctl.
pub mod Write
pub mod System
pub mod Queue
pub mod Threads
pub mod Users
pub mod Opens
pub mod Ioctl
pub mod AppTest
pub mod Setup
mod Tests
use linux_kernel_ldd.Prelude.{
  ℕ, ◌+◌, ◌-◌, ◌%◌, ◌^◌, Bool, true, false, ◌&&◌, List, [], ◌∷◌, ℤ, pos, is_nonzero, length, take,
  ltb, leb, ◌==◌, if◌then◌else◌,
}
use linux_kernel_ldd.Kernel.Errno.{emfile, erestartsys}
use linux_kernel_ldd.Kernel.Kfifo.{Kfifo}

-- `int` and `unsigned int` arithmetic wraps.
abbrev pub word : ℕ → ℕ
word n = n % 2 ^ 32

abbrev pub default_nr_users : ℕ
default_nr_users = 2

abbrev pub default_fifo_size : ℕ
default_fifo_size = 16

-- POLLOUT of poll.h.
abbrev pub pollout : ℕ
pollout = 4

-- `struct chardrvs_priv_dev`, for what a FIFO is. A mutex is whether it is held. `lock` is only held
-- across one assignment, so that only threads can find it taken, and stands in Threads.
pub record Dev (F : Type 0) : Type 0 where
  pub myfifo : F
  pub r_f_lock : Bool
  pub w_f_lock : Bool
  pub usrs_cnt : ℕ
  pub avail : ℕ
  pub ref_cntr : ℕ

-- What a caller gets: a result, or sleep, for a mutex or for `wq_f`.
pub data Outcome : Type 0 where
  returned : ℤ → Outcome
  locked : Outcome
  asleep : Outcome

-- `chardrvs_open`: two atomic steps, the test and the count.
abbrev pub open_refused : {F : Type 0} → Dev F → Bool
open_refused d = leb d.usrs_cnt d.ref_cntr

abbrev pub count_user : {F : Type 0} → Dev F → Dev F
count_user d = record d { ref_cntr = word (d.ref_cntr + 1) }

pub open_dev : {F : Type 0} → Dev F → ℤ × Dev F
open_dev d = if open_refused d then (emfile, d) else (pos 0, count_user d)

-- `chardrvs_release`: the count, an `int`, goes down only from above 0.
pub release_dev : {F : Type 0} → Dev F → ℤ × Dev F
release_dev d =
    if ltb 0 d.ref_cntr && ltb d.ref_cntr (2 ^ 31)
    then (pos 0, record d { ref_cntr = d.ref_cntr - 1 })
    else (pos 0, d)

-- `chardrvs_poll`.
pub poll_dev : {F : Type 0} → Dev F → ℕ
poll_dev d = if d.avail == 0 then 0 else pollout

-- `chardrvs_read_procmem`: the four numbers that it prints, for the module parameter `fsize`.
pub read_procmem : {F : Type 0} → ℕ → Dev F → List ℕ
read_procmem fsize d = d.usrs_cnt ∷ d.avail ∷ d.ref_cntr ∷ fsize ∷ []

module _ (k : Kfifo) where
  open k use {Fifo, kfifo_avail, fresh, kfifo_from_user, kfifo_to_user}

  -- `chardrvs_write_fifo` from `kfifo_from_user` on, with `w_f_lock` held. Beside the result stand
  -- the bytes that reach the FIFO, `copiedin` of them.
  pub write_copy : List ℕ → ℕ → Dev Fifo → Outcome × List ℕ × Dev Fifo
  write_copy buf count d =
      let r = kfifo_from_user d.myfifo buf count in
      (
        returned (if is_nonzero r.ret then r.ret else pos r.copied),
        take r.copied buf,
        record d { myfifo = r.fifo; w_f_lock = false; avail = kfifo_avail r.fifo },
      )

  -- `wait_event_interruptible(dev->wq_f, dev->avail >= count)` and what follows it, entered first
  -- with `w_f_lock` just taken and again at each wake-up. `signal`: a signal is pending.
  pub write_wait : Bool → List ℕ → ℕ → Dev Fifo → Outcome × List ℕ × Dev Fifo
  unfolding write_copy
  write_wait signal buf count d =
      if leb count d.avail
      then write_copy buf count d
      else if signal
      then (returned erestartsys, [], d)
      else (asleep, [], d)

  -- `chardrvs_write_fifo`. `signal` interrupts either wait.
  pub write_fifo : Bool → List ℕ → ℕ → Dev Fifo → Outcome × List ℕ × Dev Fifo
  unfolding write_wait
  write_fifo signal buf count d =
      if d.w_f_lock
      then (if signal then (returned erestartsys, [], d) else (locked, [], d))
      else write_wait signal buf count (record d { w_f_lock = true })

  -- `chardrvs_read_fifo` up to `mutex_unlock(&dev->r_f_lock)`, with the result and the bytes that
  -- it will return. A sleeping writer is woken in here.
  pub read_copy : ℕ → ℕ → Dev Fifo → ℤ × List ℕ × Dev Fifo
  read_copy room count d =
      let r = kfifo_to_user d.myfifo room count in
      (
        if is_nonzero r.ret then r.ret else pos (length r.bytes),
        r.bytes,
        record d { myfifo = r.fifo; r_f_lock = false },
      )

  -- The rest of it: `dev->avail = kfifo_avail(&dev->myfifo)`.
  pub read_update : Dev Fifo → Dev Fifo
  read_update d = record d { avail = kfifo_avail d.myfifo }

  -- `chardrvs_read_fifo`, with the bytes that reach the caller's buffer.
  pub read_fifo : Bool → ℕ → ℕ → Dev Fifo → Outcome × List ℕ × Dev Fifo
  unfolding read_copy read_update
  read_fifo signal room count d =
      if d.r_f_lock
      then (if signal then (returned erestartsys, [], d) else (locked, [], d))
      else let (ret, bytes, d') = read_copy room count (record d { r_f_lock = true }) in
        (returned ret, bytes, read_update d')

  -- `setup_chardrvs`: `alloc` is what `kfifo_alloc` returns. The device was cleared by `memset`.
  pub setup_chardrvs : ℕ → ℤ → Dev Fifo → ℤ × Dev Fifo
  setup_chardrvs fsize alloc d =
      let d' = record d { r_f_lock = false; w_f_lock = false; usrs_cnt = default_nr_users } in
      if is_nonzero alloc
      then (alloc, d')
      else (alloc, record d' { myfifo = fresh fsize; avail = word fsize })
