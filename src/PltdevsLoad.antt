-- ===== src/PltdevsLoad.antt =====
-- linux-device-drivers/06.pltdevs_load/pltdevs_load.c: the two devices of the board code.
pub mod Pipes
mod Tests
use linux_kernel_ldd.Prelude.{
  ◌≡◌, none, some, List, [], ◌∷◌, arith, if◌then◌else◌, ℤ, pos, is_nonzero,
}
use linux_kernel_ldd.Kernel.Replay.{
  platform_device, Log, Outcome, release, claims, stop, held_after_both,
}
use linux_kernel_ldd.Pltdrv.{PltdataFifo}
use linux_kernel_ldd.PltdrvPlain.{PlatformDevice}

-- `pltdata_fifo_lst`, by its elements.
abbrev pub pltdata_fifo_0 : PltdataFifo
pltdata_fifo_0 = record { version = 0xaa; fsize = 8 }

abbrev pub pltdata_fifo_1 : PltdataFifo
pltdata_fifo_1 = record { version = 0xbb; fsize = 8 }

abbrev pub plt_dev0 : PlatformDevice
plt_dev0 = record { id = 0; platdata = some pltdata_fifo_0 }

abbrev pub plt_dev1 : PlatformDevice
plt_dev1 = record { id = 1; platdata = some pltdata_fifo_1 }

abbrev pub pltdevices : List PlatformDevice
pltdevices = plt_dev0 ∷ plt_dev1 ∷ []

-- `pltdevs_load_init`. `platform_add_devices` adds all the devices or none; its result is dropped.
pub pltdevs_load_init : ℤ → Outcome
pltdevs_load_init added =
    if is_nonzero added
    then stop (pos 0)
    else claims (platform_device plt_dev0.id) (claims (platform_device plt_dev1.id) (stop (pos 0)))

-- `pltdevs_load_exit`.
pub pltdevs_load_exit : Log
pltdevs_load_exit =
    release (platform_device plt_dev0.id) ∷ release (platform_device plt_dev1.id) ∷ []

-- The load reports success whatever `platform_add_devices` says; the unload gives the devices back
-- where it added them, and faults where it did not.
pub pltdevs_load_brackets :
    (added : ℤ)
    → ((pltdevs_load_init added).0 ≡ pos 0)
      × (held_after_both (pltdevs_load_init added) pltdevs_load_exit
          ≡ (if is_nonzero added then none else some []))
unfolding pltdevs_load_init pltdevs_load_exit
pltdevs_load_brackets added = ground arith
