-- ===== src/Mcdevdrvs.antt =====
-- linux-device-drivers/03.mcdevdrvs/mcdevdrvs.c: two character devices, each with a FIFO and two
-- mutexes of its own.
pub mod Minors
pub mod Pipes
pub mod Setup
mod Tests
use linux_kernel_ldd.Prelude.{
  ℕ, zero, suc, ◌+◌, Bool, List, [], ◌∷◌, ◌++◌, ℤ, pos, is_neg, is_nonzero, ◌==◌, if◌then◌else◌,
}
use linux_kernel_ldd.Kernel.Kfifo.{Kfifo}
use linux_kernel_ldd.Kernel.Replay.{
  chrdev_region, class, device, cdev, fifo, Log, Outcome, release, claims, frees, stop,
}
use linux_kernel_ldd.Kernelnewbies.{State, Reply}
use linux_kernel_ldd.Kernelnewbies

abbrev pub nr_minor_devcs : ℕ
nr_minor_devcs = 2

-- `prv_drv.devcs`: the device of each minor number. A `struct prvt_devc` has the FIFO and the mutexes
-- that kernelnewbies.c keeps in statics.
abbrev pub Devcs : Type 0 → Type 0
Devcs F = ℕ → State F

abbrev pub update : {F : Type 0} → Devcs F → ℕ → State F → Devcs F
update devcs minor s n = if n == minor then s else devcs n

-- `driver_open_fifo`: `container_of` leads from the minor's cdev to its device.
pub open_fifo : {F : Type 0} → ℕ → Devcs F → State F
open_fifo minor devcs = devcs minor

module _ (k : Kfifo) where
  open k use {Fifo}

  -- `driver_write_fifo` on a file of `minor`: the code of kernelnewbies.c on that device.
  pub write_minor : ℕ → Bool → List ℕ → ℕ → Devcs Fifo → Reply × List ℕ × Devcs Fifo
  write_minor minor signal buf count devcs =
      let (out, bytes, s) = Kernelnewbies.write_fifo k signal buf count (open_fifo minor devcs) in
      (out, bytes, update devcs minor s)

  -- `driver_read_fifo`, likewise.
  pub read_minor : ℕ → Bool → ℕ → ℕ → Devcs Fifo → Reply × List ℕ × Devcs Fifo
  read_minor minor signal room count devcs =
      let (out, bytes, s) = Kernelnewbies.read_fifo k signal room count (open_fifo minor devcs) in
      (out, bytes, update devcs minor s)

-- What the kernel answers to each call of `mcdevdrvs_init`, by the loop's counter where it loops.
pub record Answers : Type 0 where
  pub alloc_chrdev_region : ℤ
  pub class_create : ℤ
  pub device_create : ℕ → ℤ
  pub cdev_add : ℕ → ℤ
  pub kfifo_alloc : ℕ → ℤ

abbrev pub err_class : ℤ → Outcome
err_class ret = frees chrdev_region (stop ret)

-- `for (; dev_cnt >= 0; dev_cnt--)` of `err_cdev` and `err_device`: the counter's own device first.
pub err_device : ℕ → ℤ → Outcome
err_device zero ret = frees (cdev 0) (frees (device 0) (frees class (err_class ret)))
err_device (suc n) ret = frees (cdev (suc n)) (frees (device (suc n)) (err_device n ret))

-- `for (; fifo_cnt >= 0; fifo_cnt--)` of `err_fifo`, with `dev_cnt` past its loop.
pub err_fifo : ℕ → ℤ → Outcome
err_fifo zero ret = frees (fifo 0) (err_device nr_minor_devcs ret)
err_fifo (suc n) ret = frees (fifo (suc n)) (err_fifo n ret)

-- The loop of `kfifo_alloc`, with `left` rounds to go, and the `return 0` after it.
pub alloc_fifos : Answers → ℕ → ℕ → Outcome
alloc_fifos a zero fifo_cnt = stop (pos 0)
alloc_fifos a (suc left) fifo_cnt =
    let rest = claims (fifo fifo_cnt) (alloc_fifos a left (fifo_cnt + 1)) in
    let ret = a.kfifo_alloc fifo_cnt in if is_nonzero ret then err_fifo fifo_cnt ret else rest

-- The loop of `device_create` and `cdev_add`, with `left` rounds to go, and the next loop. The result
-- of `cdev_add` is kept in `rc`; `ret` is still the result of `alloc_chrdev_region` there.
pub create_devices : Answers → ℕ → ℕ → Outcome
create_devices a zero dev_cnt = alloc_fifos a nr_minor_devcs 0
create_devices a (suc left) dev_cnt =
    let rest = claims (cdev dev_cnt) (create_devices a left (dev_cnt + 1)) in
    if is_neg (a.device_create dev_cnt)
    then err_device dev_cnt (a.device_create dev_cnt)
    else claims (device dev_cnt)
        (if is_nonzero (a.cdev_add dev_cnt) then err_device dev_cnt a.alloc_chrdev_region else rest)

-- `mcdevdrvs_init`.
pub mcdevdrvs_init : Answers → Outcome
unfolding create_devices alloc_fifos err_fifo err_device
mcdevdrvs_init a =
    if is_neg a.alloc_chrdev_region
    then stop a.alloc_chrdev_region
    else claims chrdev_region (
        if is_neg a.class_create
        then err_class a.class_create
        else claims class (create_devices a nr_minor_devcs 0))

-- The loops of `mcdevdrvs_exit`, with `left` rounds to go.
pub delete_devices : ℕ → ℕ → Log
delete_devices zero n = []
delete_devices (suc left) n = release (cdev n) ∷ release (device n) ∷ delete_devices left (n + 1)

pub free_fifos : ℕ → ℕ → Log
free_fifos zero n = []
free_fifos (suc left) n = release (fifo n) ∷ free_fifos left (n + 1)

-- `mcdevdrvs_exit`.
pub mcdevdrvs_exit : Log
unfolding delete_devices free_fifos
mcdevdrvs_exit =
    delete_devices nr_minor_devcs 0
    ++ (release class ∷ release chrdev_region ∷ free_fifos nr_minor_devcs 0)
