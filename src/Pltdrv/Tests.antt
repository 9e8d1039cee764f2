-- ===== src/Pltdrv/Tests.antt =====
-- The theorems about pltdrv_attr_dt.c at work.
use linux_kernel_ldd.Prelude.{List, ◌≡◌, refl, true, none, some, [], ◌∷◌, arith, pos}
use linux_kernel_ldd.Kernel.Errno.{enomem}
use linux_kernel_ldd.Kernel.Lifetime.{Event, comes, goes}
use linux_kernel_ldd.Kernel.Replay.{replay_from}
use linux_kernel_ldd.Pltdrv.{PlatformDevice, Answers, InitAnswers, PrvtDrv, data_id_of}
use linux_kernel_ldd.Pltdrv.Lifetime.{module_log, module_log_lem}
use linux_kernel_ldd.Pltdrv.Numbers.{Bound, countdown, unbind, has, number_taken}

abbrev from_tree : PlatformDevice
from_tree = record {
  match = true;
  of_node = true;
  of_version = some 1;
  of_fsize = some 16;
  id = 0;
  platdata = none;
}

abbrev two_bound : PrvtDrv
two_bound = record { b_devnr = 64; nr_devcs_probed = 2 }

abbrev all_well : Answers
all_well = record {
  kzalloc_plt = true;
  kzalloc_dev = true;
  device_create = pos 0;
  cdev_add = pos 0;
  kfifo_alloc = pos 0;
  sysfs_create_group = pos 0;
}

abbrev no_group : Answers
no_group = record all_well { sysfs_create_group = enomem }

abbrev loads : InitAnswers
loads = record {
  alloc_chrdev_region = pos 0;
  class_create = pos 0;
  platform_driver_register = pos 0;
}

abbrev nothing_bound : PrvtDrv
nothing_bound = record { b_devnr = 64; nr_devcs_probed = 0 }

-- The device that came first goes first, and one stays to the end.
abbrev history : List (Event (PlatformDevice × Answers))
history =
    comes (from_tree, all_well)
    ∷ comes (from_tree, no_group)
    ∷ comes (from_tree, all_well)
    ∷ goes 1
    ∷ comes (from_tree, all_well)
    ∷ goes 0
    ∷ []

module_log_lem_example : replay_from (some []) (module_log loads nothing_bound history) ≡ some []
module_log_lem_example = module_log_lem loads nothing_bound history refl refl refl

abbrev both : Bound
both = record { drv = two_bound; ids = 1 ∷ 0 ∷ [] }

both_ids : 1 ∷ 0 ∷ [] ≡ countdown 2
unfolding countdown
both_ids = refl

number_taken_example :
    (data_id_of (unbind 0 both).drv from_tree ≡ 1) × (has 1 (unbind 0 both).ids ≡ true)
number_taken_example =
    number_taken 1 0 from_tree both (omega arith) (refl, both_ids) (omega arith) refl
