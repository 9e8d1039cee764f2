-- ===== src/PltdrvPlain/Probe.antt =====
-- pltdrv_probe, pltdrv_remove, pltdrv_init and pltdrv_exit of 07.pltdrv: what is held after them.
use linux_kernel_ldd.Prelude.{
  ◌+◌, ◌≡◌, false, none, some, [], arith, if◌then◌else◌, pos, is_neg, is_nonzero,
}
use linux_kernel_ldd.Kernel.Replay.{held_after, held_after_both}
use linux_kernel_ldd.Pltdrv.{PrvtDrv}
use linux_kernel_ldd.PltdrvPlain.{
  PlatformDevice, Answers, pltdrv_probe, pltdrv_remove, InitAnswers, pltdrv_init, pltdrv_exit,
}

-- A probe holds nothing after a failure, at whichever call it failed, and after a success what the
-- remove of the same number gives back, each object once.
pub plain_probe_brackets :
    (drv : PrvtDrv) (ofdev : PlatformDevice) (a : Answers)
    → let up = pltdrv_probe drv ofdev a in
      (if is_nonzero up.0
        then held_after up
        else held_after_both up (pltdrv_remove (drv.b_devnr + ofdev.id)))
      ≡ some []
unfolding pltdrv_probe pltdrv_remove
plain_probe_brackets drv ofdev a = ground arith

-- Where the region and the class are there, `pltdrv_init` returns 0; `pltdrv_exit` then gives back what
-- it claimed where the driver could be registered, and faults where it could not.
pub plain_init_brackets :
    (a : InitAnswers)
    → is_neg a.alloc_chrdev_region ≡ false
    → is_neg a.class_create ≡ false
    → ((pltdrv_init a).0 ≡ pos 0)
      × (held_after_both (pltdrv_init a) pltdrv_exit
          ≡ (if is_nonzero a.platform_driver_register then none else some []))
unfolding pltdrv_init pltdrv_exit
plain_init_brackets a r c = ground arith
