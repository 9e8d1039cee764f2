-- ===== src/PltdrvAttr/Versions.antt =====
-- The probes of the three versions of the platform driver, side by side: 07.pltdrv, 08.pltdrv_attr and
-- 12.pltdrv_attr_dt.
use linux_kernel_ldd.Prelude.{
  ◌≡◌, Bool, true, false, Option, none, some, arith, if◌then◌else◌, pos, is_nonzero,
}
use linux_kernel_ldd.Kernel.Errno.{einval}
use linux_kernel_ldd.Kernel.Replay.{sysfs_group, keep, held_after}
use linux_kernel_ldd.Pltdrv.{PltdataFifo, PrvtDrv}
use linux_kernel_ldd.Pltdrv
use linux_kernel_ldd.PltdrvPlain.{PlatformDevice}
use linux_kernel_ldd.PltdrvPlain
use linux_kernel_ldd.PltdrvAttr.{Answers, pltdrv_probe}

-- What 12.pltdrv_attr_dt gets, as far as 08.pltdrv_attr asks for it.
abbrev pub as_attr : Pltdrv.Answers → Answers
as_attr a = record {
  kzalloc = a.kzalloc_dev;
  device_create = a.device_create;
  cdev_add = a.cdev_add;
  kfifo_alloc = a.kfifo_alloc;
  sysfs_create_group = a.sysfs_create_group;
}

-- What 08.pltdrv_attr gets, as far as 07.pltdrv asks for it.
abbrev pub as_plain : Answers → PltdrvPlain.Answers
as_plain a = record {
  kzalloc = a.kzalloc;
  device_create = a.device_create;
  cdev_add = a.cdev_add;
  kfifo_alloc = a.kfifo_alloc;
}

abbrev pub board_device : Pltdrv.PlatformDevice → PlatformDevice
board_device ofdev = record { id = ofdev.id; platdata = ofdev.platdata }

abbrev pub has_data : Option PltdataFifo → Bool
has_data none = false
has_data (some plt) = true

-- On a device that the device tree does not name, the probe of 12.pltdrv_attr_dt claims and gives back
-- what that of 08.pltdrv_attr does, in the same order, and has the same result, but for a device
-- without data, for which it is -EINVAL.
pub probe_without_tree :
    (drv : PrvtDrv) (ofdev : Pltdrv.PlatformDevice) (a : Pltdrv.Answers)
    → ofdev.match ≡ false
    → let new = Pltdrv.pltdrv_probe drv ofdev a in
      let old = pltdrv_probe drv (board_device ofdev) (as_attr a) in
      (new.1 ≡ old.1) × (new.0 ≡ (if has_data ofdev.platdata then old.0 else einval))
unfolding Pltdrv.pltdrv_probe pltdrv_probe
probe_without_tree drv ofdev a h = ground arith

-- Where the attributes can be made, the probe of 08.pltdrv_attr has the result of that of 07.pltdrv,
-- and holds what that one holds afterwards, with the attributes beside it where it succeeds.
pub probe_with_attributes :
    (drv : PrvtDrv) (ofdev : PlatformDevice) (a : Answers)
    → a.sysfs_create_group ≡ pos 0
    → let new = pltdrv_probe drv ofdev a in
      let old = PltdrvPlain.pltdrv_probe drv ofdev (as_plain a) in
      (new.0 ≡ old.0)
      × (held_after new
          ≡ (if is_nonzero old.0 then held_after old else keep sysfs_group (held_after old)))
unfolding pltdrv_probe PltdrvPlain.pltdrv_probe
probe_with_attributes drv ofdev a h = ground arith
