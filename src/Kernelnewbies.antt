-- ===== src/Kernelnewbies.antt =====
-- linux-device-drivers/01.kernelnewbies/kernelnewbies.c: one character device over a FIFO. A handler
-- takes the driver's state and returns it with what the caller gets.
pub mod Bytes
pub mod Echo
pub mod Pipe
pub mod Setup
use linux_kernel_ldd.Prelude.{
  ℕ, Bool, false, List, [], ◌∷◌, ℤ, pos, is_neg, is_nonzero, length, take, if◌then◌else◌,
}
use linux_kernel_ldd.Kernel.Errno.{erestartsys}
use linux_kernel_ldd.Kernel.Kfifo.{Kfifo}
use linux_kernel_ldd.Kernel.Replay.{
  chrdev_region, class, device, cdev, fifo, Log, Outcome, release, claims, frees, stop,
}

-- The statics of the module: the FIFO, and whether each mutex is held.
pub record State (F : Type 0) : Type 0 where
  pub myfifo : F
  pub read_access : Bool
  pub write_access : Bool

-- What a caller gets: a result, or the wait for a mutex.
pub data Reply : Type 0 where
  returned : ℤ → Reply
  locked : Reply

module _ (k : Kfifo) where
  open k use {Fifo, kfifo_from_user, kfifo_to_user}

  -- `driver_write_fifo`; `signal` interrupts the wait for the mutex. The list holds the bytes that
  -- reach the FIFO, `copiedin` of them.
  pub write_fifo : Bool → List ℕ → ℕ → State Fifo → Reply × List ℕ × State Fifo
  write_fifo signal buf count s =
      if s.write_access
      then (if signal then (returned erestartsys, [], s) else (locked, [], s))
      else let r = kfifo_from_user s.myfifo buf count in
        (
          returned (if is_nonzero r.ret then r.ret else pos count),
          take r.copied buf,
          record s { myfifo = r.fifo; write_access = false },
        )

  -- `driver_read_fifo`, with the bytes that reach the caller's buffer.
  pub read_fifo : Bool → ℕ → ℕ → State Fifo → Reply × List ℕ × State Fifo
  read_fifo signal room count s =
      if s.read_access
      then (if signal then (returned erestartsys, [], s) else (locked, [], s))
      else let r = kfifo_to_user s.myfifo room count in
        (
          returned (if is_nonzero r.ret then r.ret else pos (length r.bytes)),
          r.bytes,
          record s { myfifo = r.fifo; read_access = false },
        )

-- What the kernel answers to each call of `kernelnewbies_init`: the return value, or the `PTR_ERR`.
pub record Answers : Type 0 where
  pub alloc_chrdev_region : ℤ
  pub class_create : ℤ
  pub device_create : ℤ
  pub cdev_add : ℤ
  pub kfifo_alloc : ℤ

-- The labels of `kernelnewbies_init`, each falling through to the next.
abbrev pub err_class_create : ℤ → Outcome
err_class_create ret = frees chrdev_region (stop ret)

abbrev pub err_device_create : ℤ → Outcome
err_device_create ret = frees class (err_class_create ret)

abbrev pub err_add_device : ℤ → Outcome
err_add_device ret = frees (device 0) (err_device_create ret)

abbrev pub err_alloc_fifo : ℤ → Outcome
err_alloc_fifo ret = frees (cdev 0) (err_add_device ret)

-- `kernelnewbies_init`. The result of `cdev_add` is kept in `rc`; `ret` is still the result of
-- `alloc_chrdev_region` there.
pub kernelnewbies_init : Answers → Outcome
kernelnewbies_init a =
    if is_neg a.alloc_chrdev_region
    then stop a.alloc_chrdev_region
    else claims chrdev_region (
        if is_neg a.class_create
        then err_class_create a.class_create
        else claims class (
            if is_neg a.device_create
            then err_device_create a.device_create
            else claims (device 0) (
                if is_nonzero a.cdev_add
                then err_add_device a.alloc_chrdev_region
                else claims (cdev 0) (
                    if is_nonzero a.kfifo_alloc
                    then err_alloc_fifo a.kfifo_alloc
                    else claims (fifo 0) (stop (pos 0))))))

-- `kernelnewbies_exit`.
pub kernelnewbies_exit : Log
kernelnewbies_exit =
    release (cdev 0)
    ∷ release (device 0)
    ∷ release class
    ∷ release chrdev_region
    ∷ release (fifo 0)
    ∷ []
