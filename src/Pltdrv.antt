-- ===== src/Pltdrv.antt =====
-- linux-device-drivers/12.pltdrv_attr_dt/pltdrv_attr_dt.c: the driver of FIFO devices on the platform
-- bus, whose data come from the device tree or from the board code.
pub mod Probe
pub mod Numbers
pub mod Lifetime
pub mod Fops
pub mod Files
mod Tests
use linux_kernel_ldd.Prelude.{
  ℕ, ◌+◌, ◌-◌, ◌%◌, ◌^◌, Bool, false, not, Option, none, some, List, [], ◌∷◌, if◌then◌else◌, ℤ, pos,
  is_neg, is_nonzero,
}
use linux_kernel_ldd.Kernel.Errno.{enomem, einval}
use linux_kernel_ldd.Kernel.Kfifo.{Kfifo}
use linux_kernel_ldd.Kernel.Replay.{
  chrdev_region, class, driver, device, cdev, fifo, sysfs_group, Log, Outcome, release, claims,
  frees, stop,
}
use linux_kernel_ldd.Kernelnewbies.{State, Reply}
use linux_kernel_ldd.Kernelnewbies

-- `struct pltdata_fifo`; its two `int`s as bit patterns.
pub record PltdataFifo : Type 0 where
  pub version : ℕ
  pub fsize : ℕ

-- The fields of `struct fifo_prvt_devc` that last: the FIFO with its mutexes, as kernelnewbies.c has
-- them, the data and the number.
pub record FifoPrvtDevc (F : Type 0) : Type 0 where
  pub chars : State F
  pub plt_data_prv : PltdataFifo
  pub devnr : ℕ

module _ (k : Kfifo) where
  open k use {Fifo, fresh}

  -- `setup_pltdrv_dev`, for what `kfifo_alloc` returns.
  pub setup_pltdrv_dev : ℤ → FifoPrvtDevc Fifo → ℤ × FifoPrvtDevc Fifo
  setup_pltdrv_dev alloc dev =
      let unlocked = record dev.chars { read_access = false; write_access = false } in
      if is_nonzero alloc
      then (alloc, record dev { chars = unlocked })
      else (alloc, record dev { chars = record unlocked { myfifo = fresh dev.plt_data_prv.fsize } })

  -- The device of `pltdrv_probe` in the cleared memory of `devm_kzalloc`, with its data and its number; and
  -- after its set-up.
  pub bare_devc : Fifo → PltdataFifo → ℕ → FifoPrvtDevc Fifo
  bare_devc cleared plt devnr = record {
    chars = record { myfifo = cleared; read_access = false; write_access = false };
    plt_data_prv = plt;
    devnr = devnr;
  }

  pub new_devc : Fifo → PltdataFifo → ℕ → FifoPrvtDevc Fifo
  unfolding setup_pltdrv_dev bare_devc
  new_devc cleared plt devnr = (setup_pltdrv_dev (pos 0) (bare_devc cleared plt devnr)).1

  -- `pltdrv_write_fifo`: the code of kernelnewbies.c on the device.
  pub write_fifo : Bool → List ℕ → ℕ → FifoPrvtDevc Fifo → Reply × List ℕ × FifoPrvtDevc Fifo
  write_fifo signal buf count dev =
      let (out, bytes, s) = Kernelnewbies.write_fifo k signal buf count dev.chars in
      (out, bytes, record dev { chars = s })

  -- `pltdrv_read_fifo`, likewise.
  pub read_fifo : Bool → ℕ → ℕ → FifoPrvtDevc Fifo → Reply × List ℕ × FifoPrvtDevc Fifo
  read_fifo signal room count dev =
      let (out, bytes, s) = Kernelnewbies.read_fifo k signal room count dev.chars in
      (out, bytes, record dev { chars = s })

-- `show_fsize` and `show_fversion`: the number that each prints.
pub show_fsize : {F : Type 0} → FifoPrvtDevc F → ℕ
show_fsize dev = dev.plt_data_prv.fsize

pub show_fversion : {F : Type 0} → FifoPrvtDevc F → ℕ
show_fversion dev = dev.plt_data_prv.version

-- What `kstrtol` gives: its result, and the number as a bit pattern of 64 bits.
pub record Kstrtol : Type 0 where
  pub ret : ℤ
  pub value : ℕ

-- `store_fversion`: a `long` is cut to an `int`.
pub store_fversion : {F : Type 0} → Kstrtol → ℕ → FifoPrvtDevc F → ℤ × FifoPrvtDevc F
store_fversion parsed count dev = if is_nonzero parsed.ret then (parsed.ret, dev) else (
  pos count,
  record dev {
    plt_data_prv = record { version = parsed.value % 2 ^ 32; fsize = dev.plt_data_prv.fsize };
  },
)

-- What the bus hands to `pltdrv_probe`: whether the device tree names the device, its node with the
-- two properties that it may have, and the identity and data of the board code.
pub record PlatformDevice : Type 0 where
  pub match : Bool
  pub of_node : Bool
  pub of_version : Option ℕ
  pub of_fsize : Option ℕ
  pub id : ℕ
  pub platdata : Option PltdataFifo

-- What the kernel answers to each call of `pltdrv_probe`.
pub record Answers : Type 0 where
  pub kzalloc_plt : Bool
  pub kzalloc_dev : Bool
  pub device_create : ℤ
  pub cdev_add : ℤ
  pub kfifo_alloc : ℤ
  pub sysfs_create_group : ℤ

-- A pointer as the kernel returns one: NULL, an error, or the data.
pub data PltPointer : Type 0 where
  null : PltPointer
  err_ptr : ℤ → PltPointer
  valid : PltdataFifo → PltPointer

abbrev from_props : Option ℕ → Option ℕ → PltPointer
from_props none fsize = err_ptr einval
from_props (some v) none = err_ptr einval
from_props (some v) (some n) = valid (record { version = v; fsize = n })

-- `parse_dt_arg_devcs`.
pub parse_dt_arg_devcs : PlatformDevice → Answers → PltPointer
parse_dt_arg_devcs ofdev a =
    if not ofdev.of_node
    then null
    else if not a.kzalloc_plt
    then err_ptr enomem
    else from_props ofdev.of_version ofdev.of_fsize

-- `prv_drv`: the first number of the region, and how many devices are bound.
pub record PrvtDrv : Type 0 where
  pub b_devnr : ℕ
  pub nr_devcs_probed : ℕ

-- The labels of `pltdrv_probe`, for the device of number `n`.
abbrev pub err_destruct_device : ℕ → ℤ → Outcome
err_destruct_device n ret = frees (device n) (stop ret)

abbrev pub err_unregister_cdev : ℕ → ℤ → Outcome
err_unregister_cdev n ret = frees (cdev n) (err_destruct_device n ret)

abbrev pub err_setup_pltdrv : ℕ → ℤ → Outcome
err_setup_pltdrv n ret = frees (fifo n) (err_unregister_cdev n ret)

-- `pltdrv_probe` from `device_create` on.
pub bind_device : Answers → ℕ → Outcome
bind_device a n =
    if is_neg a.device_create
    then stop a.device_create
    else claims (device n) (
        if is_nonzero a.cdev_add
        then err_destruct_device n a.cdev_add
        else claims (cdev n) (
            if is_nonzero a.kfifo_alloc
            then err_unregister_cdev n a.kfifo_alloc
            else claims (fifo n) (
                if is_nonzero a.sysfs_create_group
                then err_setup_pltdrv n a.sysfs_create_group
                else claims sysfs_group (stop (pos 0)))))

-- `pltdrv_probe` with its data and its `data_id` found.
pub probe_with : PltPointer → ℕ → PrvtDrv → Answers → Outcome
unfolding bind_device
probe_with null data_id drv a = stop einval
probe_with (err_ptr e) data_id drv a = stop enomem
probe_with (valid plt) data_id drv a =
    if not a.kzalloc_dev then stop einval else bind_device a (drv.b_devnr + data_id)

abbrev pub to_pointer : Option PltdataFifo → PltPointer
to_pointer none = null
to_pointer (some plt) = valid plt

-- The `data_id` of a device.
pub data_id_of : PrvtDrv → PlatformDevice → ℕ
data_id_of drv ofdev = if ofdev.match then drv.nr_devcs_probed else ofdev.id

-- `pltdrv_probe`.
unfoldable pub pltdrv_probe : PrvtDrv → PlatformDevice → Answers → Outcome
unfolding probe_with parse_dt_arg_devcs data_id_of
pltdrv_probe drv ofdev a =
    if ofdev.match
    then probe_with (parse_dt_arg_devcs ofdev a) (data_id_of drv ofdev) drv a
    else probe_with (to_pointer ofdev.platdata) (data_id_of drv ofdev) drv a

-- `++prv_drv.nr_devcs_probed` of a probe that ends successfully.
abbrev pub probed : PrvtDrv → PrvtDrv
probed drv = record drv { nr_devcs_probed = (drv.nr_devcs_probed + 1) % 2 ^ 32 }

-- `pltdrv_remove` for the device of number `n`: what it gives back, and the driver after it.
pub pltdrv_remove : ℕ → Log
pltdrv_remove n =
    release sysfs_group ∷ release (fifo n) ∷ release (cdev n) ∷ release (device n) ∷ []

abbrev pub removed : PrvtDrv → PrvtDrv
removed drv = record drv { nr_devcs_probed = (drv.nr_devcs_probed + 2 ^ 32 - 1) % 2 ^ 32 }

-- What the kernel answers to each call of `pltdrv_init`.
pub record InitAnswers : Type 0 where
  pub alloc_chrdev_region : ℤ
  pub class_create : ℤ
  pub platform_driver_register : ℤ

-- `pltdrv_init`: the result of `platform_driver_register` is dropped.
pub pltdrv_init : InitAnswers → Outcome
pltdrv_init a =
    if is_neg a.alloc_chrdev_region
    then stop a.alloc_chrdev_region
    else claims chrdev_region (
        if is_neg a.class_create
        then frees chrdev_region (stop a.class_create)
        else claims class (
            if is_nonzero a.platform_driver_register
            then stop (pos 0)
            else claims driver (stop (pos 0))))

-- `pltdrv_exit`.
pub pltdrv_exit : Log
pltdrv_exit = release driver ∷ release class ∷ release chrdev_region ∷ []
