-- ===== src/Pltdrv/Probe.antt =====
-- pltdrv_probe, pltdrv_remove, pltdrv_init and pltdrv_exit: results, and what is held after them.
use linux_kernel_ldd.Prelude.{
  ℕ, ◌+◌, ◌%◌, ◌^◌, ◌≡◌, ◌⊎◌, true, false, none, some, [], arith, if◌then◌else◌, pos, is_neg,
  is_nonzero,
}
use linux_kernel_ldd.Kernel.Errno.{enomem}
use linux_kernel_ldd.Kernel.Replay.{held_after, held_after_both}
use linux_kernel_ldd.Pltdrv.{
  PlatformDevice, Answers, PrvtDrv, pltdrv_probe, pltdrv_remove, data_id_of, InitAnswers,
  pltdrv_init, pltdrv_exit, FifoPrvtDevc, Kstrtol, store_fversion, show_fversion, show_fsize,
}

-- A probe that fails gives back all that it claimed, each object once, at whichever call it failed.
pub pltdrv_probe_unwinds :
    (drv : PrvtDrv) (ofdev : PlatformDevice) (a : Answers)
    → is_nonzero (pltdrv_probe drv ofdev a).0 ≡ true
    → held_after (pltdrv_probe drv ofdev a) ≡ some []
unfolding pltdrv_probe
pltdrv_probe_unwinds drv ofdev a h = ground arith

-- After a successful probe, `pltdrv_remove` of the same number gives back all of it, each object once.
pub pltdrv_remove-probe :
    (drv : PrvtDrv) (ofdev : PlatformDevice) (a : Answers)
    → (pltdrv_probe drv ofdev a).0 ≡ pos 0
    → held_after_both
        (pltdrv_probe drv ofdev a)
        (pltdrv_remove (drv.b_devnr + data_id_of drv ofdev))
      ≡ some []
unfolding pltdrv_probe pltdrv_remove
pltdrv_remove-probe drv ofdev a h = ground arith

-- A device of the device tree that lacks a property is refused with the error of a lack of memory.
pub probe_lacks_property :
    (drv : PrvtDrv) (ofdev : PlatformDevice) (a : Answers)
    → ofdev.match ≡ true
    → ofdev.of_node ≡ true
    → (ofdev.of_version ≡ none) ⊎ (ofdev.of_fsize ≡ none)
    → pltdrv_probe drv ofdev a ≡ (enomem, [])
unfolding pltdrv_probe
probe_lacks_property drv ofdev a m n h = ground arith

-- Where the registration of the driver succeeds, `pltdrv_exit` gives back what `pltdrv_init` claimed;
-- where it fails, `pltdrv_init` returns 0 all the same and `pltdrv_exit` faults.
pub pltdrv_exit-init :
    (a : InitAnswers)
    → is_neg a.alloc_chrdev_region ≡ false
    → is_neg a.class_create ≡ false
    → ((pltdrv_init a).0 ≡ pos 0)
      × (held_after_both (pltdrv_init a) pltdrv_exit
          ≡ (if is_nonzero a.platform_driver_register then none else some []))
unfolding pltdrv_init pltdrv_exit
pltdrv_exit-init a r c = ground arith

-- What is stored in the version attribute is what it shows, cut to 32 bits, and nothing else changes;
-- a text that is no number changes nothing.
pub show-store_fversion :
    {F : Type 0} (parsed : Kstrtol) (count : ℕ) (dev : FifoPrvtDevc F)
    → let (ret, dev') = store_fversion parsed count dev in
      (show_fversion dev'
        ≡ (if is_nonzero parsed.ret then show_fversion dev else parsed.value % 2 ^ 32))
      × (show_fsize dev' ≡ show_fsize dev)
      × (dev'.chars ≡ dev.chars)
unfolding store_fversion show_fversion show_fsize
show-store_fversion parsed count dev = ground arith
