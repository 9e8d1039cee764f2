-- ===== src/PltdrvAttr/Lifetime.antt =====
-- 08.pltdrv_attr from its load to its unload, with any devices.
use linux_kernel_ldd.Prelude.{
  ℕ, ◌+◌, ◌≡◌, refl, true, false, some, List, [], ◌∷◌, ◌++◌, arith, pos, is_neg, is_nonzero,
}
use linux_kernel_ldd.Kernel.Lifetime.{Driver, Event, whole_log, whole_log_lem}
use linux_kernel_ldd.Kernel.Replay.{
  Resource, device, cdev, fifo, sysfs_group, chrdev_region, class, driver, replay_from,
}
use linux_kernel_ldd.Pltdrv.{PrvtDrv}
use linux_kernel_ldd.PltdrvPlain.{PlatformDevice}
use linux_kernel_ldd.PltdrvAttr.{
  Answers, pltdrv_probe, pltdrv_remove, InitAnswers, pltdrv_init, pltdrv_exit,
}

abbrev number : PrvtDrv → PlatformDevice → ℕ
number drv ofdev = drv.b_devnr + ofdev.id

abbrev objects : ℕ → List Resource
objects n = sysfs_group ∷ fifo n ∷ cdev n ∷ device n ∷ []

probe_fails :
    (drv : PrvtDrv) (ofdev : PlatformDevice) (a : Answers) (held : List Resource)
    → is_nonzero (pltdrv_probe drv ofdev a).0 ≡ true
    → replay_from (some held) (pltdrv_probe drv ofdev a).1 ≡ some held
unfolding pltdrv_probe
probe_fails drv ofdev a held h = ground arith

probe_binds :
    (drv : PrvtDrv) (ofdev : PlatformDevice) (a : Answers) (held : List Resource)
    → is_nonzero (pltdrv_probe drv ofdev a).0 ≡ false
    → replay_from (some held) (pltdrv_probe drv ofdev a).1
      ≡ some (objects (number drv ofdev) ++ held)
unfolding pltdrv_probe
probe_binds drv ofdev a held h = ground arith

remove_objects :
    (n : ℕ) (held : List Resource)
    → replay_from (some (objects n ++ held)) (pltdrv_remove n) ≡ some held
unfolding pltdrv_remove
remove_objects n held = ground arith

-- The count of devices is only printed, so that the driver stays as it is.
abbrev pltdrv : Driver
pltdrv = record {
  Coming = PlatformDevice × Answers;
  State = PrvtDrv;
  probe = λ drv c. pltdrv_probe drv c.0 c.1;
  counted = λ drv. drv;
  uncounted = λ drv. drv;
  remove = λ drv c. pltdrv_remove (number drv c.0);
  objects = λ drv c. objects (number drv c.0);
  fails = λ drv c held h. probe_fails drv c.0 c.1 held h;
  binds = λ drv c held h. probe_binds drv c.0 c.1 held h;
  removes = λ drv c held. remove_objects (number drv c.0) held;
}

init_holds :
    (a : InitAnswers)
    → is_neg a.alloc_chrdev_region ≡ false
    → is_neg a.class_create ≡ false
    → a.platform_driver_register ≡ pos 0
    → replay_from (some []) (pltdrv_init a).1 ≡ some (driver ∷ class ∷ chrdev_region ∷ [])
unfolding pltdrv_init
init_holds a r c d = ground arith

exit_holds : replay_from (some (driver ∷ class ∷ chrdev_region ∷ [])) pltdrv_exit ≡ some []
unfolding pltdrv_exit
exit_holds = refl

-- Where the driver loads, it leaves nothing behind at its unload and frees nothing twice, whatever
-- devices came, whichever of their probes failed at whichever call, and in whatever order devices went.
attr_module_log :
    (a : InitAnswers) (drv : PrvtDrv) (events : List (Event (PlatformDevice × Answers)))
    → is_neg a.alloc_chrdev_region ≡ false
    → is_neg a.class_create ≡ false
    → a.platform_driver_register ≡ pos 0
    → replay_from (some []) (whole_log pltdrv (pltdrv_init a).1 drv events pltdrv_exit) ≡ some []
attr_module_log a drv events r c d =
    whole_log_lem pltdrv (pltdrv_init a).1 pltdrv_exit drv events
      (driver ∷ class ∷ chrdev_region ∷ []) (init_holds a r c d) exit_holds
