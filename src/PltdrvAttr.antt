-- ===== src/PltdrvAttr.antt =====
-- linux-device-drivers/08.pltdrv_attr/pltdrv_attr.c: the second version of
-- the driver of FIFO devices, with two attributes, for devices of the board code.
pub mod Probe
pub mod Lifetime
pub mod Fops
pub mod Versions
use linux_kernel_ldd.Prelude.{
  ℕ, ◌+◌, ◌%◌, ◌^◌, Bool, false, not, none, some, List, [], ◌∷◌, if◌then◌else◌, ℤ, pos, is_neg,
  is_nonzero,
}
use linux_kernel_ldd.Kernel.Errno.{enomem, einval}
use linux_kernel_ldd.Kernel.Kfifo.{Kfifo}
use linux_kernel_ldd.Kernel.Replay.{
  chrdev_region, class, driver, device, cdev, fifo, sysfs_group, Log, Outcome, release, claims,
  frees, stop,
}
use linux_kernel_ldd.Kernelnewbies.{Reply}
use linux_kernel_ldd.Kernelnewbies
use linux_kernel_ldd.Pltdrv.{FifoPrvtDevc, PrvtDrv, Kstrtol}
use linux_kernel_ldd.PltdrvPlain.{PlatformDevice}

module _ (k : Kfifo) where
  open k use {Fifo, fresh}

  -- `setup_pltdrv_dev`, for what `kfifo_alloc` returns.
  pub setup_pltdrv_dev : ℤ → FifoPrvtDevc Fifo → ℤ × FifoPrvtDevc Fifo
  setup_pltdrv_dev alloc dev =
      let unlocked = record dev.chars { read_access = false; write_access = false } in
      if is_nonzero alloc
      then (alloc, record dev { chars = unlocked })
      else (alloc, record dev { chars = record unlocked { myfifo = fresh dev.plt_data_prv.fsize } })

  -- `pltdrv_write_fifo`: the code of kernelnewbies.c on the device.
  pub write_fifo : Bool → List ℕ → ℕ → FifoPrvtDevc Fifo → Reply × List ℕ × FifoPrvtDevc Fifo
  write_fifo signal buf count dev =
      let (out, bytes, s) = Kernelnewbies.write_fifo k signal buf count dev.chars in
      (out, bytes, record dev { chars = s })

  -- `pltdrv_read_fifo`, likewise.
  pub read_fifo : Bool → ℕ → ℕ → FifoPrvtDevc Fifo → Reply × List ℕ × FifoPrvtDevc Fifo
  read_fifo signal room count dev =
      let (out, bytes, s) = Kernelnewbies.read_fifo k signal room count dev.chars in
      (out, bytes, record dev { chars = s })

-- `show_fsize` and `show_fversion`: the number that each prints.
pub show_fsize : {F : Type 0} → FifoPrvtDevc F → ℕ
show_fsize dev = dev.plt_data_prv.fsize

pub show_fversion : {F : Type 0} → FifoPrvtDevc F → ℕ
show_fversion dev = dev.plt_data_prv.version

-- `store_fversion`: a `long` is cut to an `int`.
pub store_fversion : {F : Type 0} → Kstrtol → ℕ → FifoPrvtDevc F → ℤ × FifoPrvtDevc F
store_fversion parsed count dev =
    let plt = dev.plt_data_prv in
    let stored = record dev { plt_data_prv = record plt { version = parsed.value % 2 ^ 32 } } in
    if is_nonzero parsed.ret then (parsed.ret, dev) else (pos count, stored)

-- What the kernel answers to each call of `pltdrv_probe`.
pub record Answers : Type 0 where
  pub kzalloc : Bool
  pub device_create : ℤ
  pub cdev_add : ℤ
  pub kfifo_alloc : ℤ
  pub sysfs_create_group : ℤ

-- The labels of `pltdrv_probe`, for the device of number `n`.
abbrev pub err_destruct_device : ℕ → ℤ → Outcome
err_destruct_device n ret = frees (device n) (stop ret)

abbrev pub err_unregister_cdev : ℕ → ℤ → Outcome
err_unregister_cdev n ret = frees (cdev n) (err_destruct_device n ret)

abbrev pub err_setup_pltdrv : ℕ → ℤ → Outcome
err_setup_pltdrv n ret = frees (fifo n) (err_unregister_cdev n ret)

-- `pltdrv_probe` with its data found.
pub probe_data : Answers → ℕ → Outcome
probe_data a n =
    if not a.kzalloc
    then stop einval
    else if is_neg a.device_create
    then stop a.device_create
    else claims (device n) (
        if is_nonzero a.cdev_add
        then err_destruct_device n a.cdev_add
        else claims (cdev n) (
            if is_nonzero a.kfifo_alloc
            then err_unregister_cdev n a.kfifo_alloc
            else claims (fifo n) (
                if is_nonzero a.sysfs_create_group
                then err_setup_pltdrv n a.sysfs_create_group
                else claims sysfs_group (stop (pos 0)))))

-- `pltdrv_probe`. The count of devices, which is only printed, is left out here and in the remove.
unfoldable pub pltdrv_probe : PrvtDrv → PlatformDevice → Answers → Outcome
unfolding probe_data
pltdrv_probe drv ofdev a = elim ofdev.platdata [
  | none ↦ stop enomem
  | some plt ↦ probe_data a (drv.b_devnr + ofdev.id)
]

-- `pltdrv_remove` for the device of number `n`: what it gives back.
pub pltdrv_remove : ℕ → Log
pltdrv_remove n =
    release (fifo n) ∷ release (cdev n) ∷ release (device n) ∷ release sysfs_group ∷ []

-- What the kernel answers to each call of `pltdrv_init`.
pub record InitAnswers : Type 0 where
  pub alloc_chrdev_region : ℤ
  pub class_create : ℤ
  pub platform_driver_register : ℤ

-- `pltdrv_init`: the result of `platform_driver_register` is dropped.
pub pltdrv_init : InitAnswers → Outcome
pltdrv_init a =
    if is_neg a.alloc_chrdev_region
    then stop a.alloc_chrdev_region
    else claims chrdev_region (
        if is_neg a.class_create
        then frees chrdev_region (stop a.class_create)
        else claims class (
            if is_nonzero a.platform_driver_register
            then stop (pos 0)
            else claims driver (stop (pos 0))))

-- `pltdrv_exit`.
pub pltdrv_exit : Log
pltdrv_exit = release driver ∷ release class ∷ release chrdev_region ∷ []
