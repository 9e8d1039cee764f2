-- ===== src/Ramdisk/Setup.antt =====
-- ramdisk_blkdev_init and ramdisk_blkdev_exit: what is held after them.
use linux_kernel_ldd.Prelude.{
  ◌≡◌, ◌⊎◌, true, false, not, Option, none, some, List, [], ◌∷◌, arith, if◌then◌else◌, ℤ, pos,
  is_neg, is_nonzero,
}
use mathlib.Core.Option
use linux_kernel_ldd.Kernel.Errno.{enomem}
use linux_kernel_ldd.Kernel.Replay.{Resource, disk, held_after, held_after_both, Outcome}
use linux_kernel_ldd.Ramdisk.{Answers, ramdisk_blkdev_init, ramdisk_blkdev_exit}

-- Where the number cannot be registered the driver goes on without it; where memory for the device is
-- refused it uses a NULL pointer.
abbrev pub Registers : Answers → Type 0
Registers a = (a.kzalloc_dev ≡ true) × (is_neg a.register_blkdev ≡ false)

-- What is held after `ramdisk_blkdev_init`, and its result; `none` for a fault.
abbrev pub state_after : Option Outcome → Option (ℤ × List Resource)
state_after none = none
state_after (some out) = Option.map (λ held. (out.0, held)) (held_after out)

abbrev pub held_after_exit : Option Outcome → Option (List Resource)
held_after_exit none = none
held_after_exit (some out) = held_after_both out ramdisk_blkdev_exit

-- Where the device and its number are there and the set-up fails before the disk is made, it returns the error of the call that failed and
-- gives back all that it claimed, each object once.
pub ramdisk_init_unwinds :
    (a : Answers)
    → Registers a
    → (a.kzalloc_data ≡ false)
      ⊎ (is_nonzero a.blk_mq_alloc_tag_set ≡ true)
      ⊎ (is_neg a.blk_mq_alloc_disk ≡ true)
    → state_after (ramdisk_blkdev_init a)
      ≡ some (
        if not a.kzalloc_data
            then enomem
            else if is_nonzero a.blk_mq_alloc_tag_set
            then a.blk_mq_alloc_tag_set
            else a.blk_mq_alloc_disk,
        [],
      )
unfolding ramdisk_blkdev_init
ramdisk_init_unwinds a r h = ground arith

-- After a successful set-up and `ramdisk_blkdev_exit` the disk structure is still held: nothing calls
-- `put_disk`.
pub ramdisk_exit-init :
    (a : Answers)
    → Registers a
    → a.kzalloc_data ≡ true
    → a.blk_mq_alloc_tag_set ≡ pos 0
    → is_neg a.blk_mq_alloc_disk ≡ false
    → a.add_disk ≡ pos 0
    → held_after_exit (ramdisk_blkdev_init a) ≡ some (disk ∷ [])
unfolding ramdisk_blkdev_init ramdisk_blkdev_exit
ramdisk_exit-init a r d t m add = ground arith

-- Where `add_disk` is the call that fails, the clean-up deletes a disk that was not added.
pub add_disk_failure :
    (a : Answers)
    → Registers a
    → a.kzalloc_data ≡ true
    → a.blk_mq_alloc_tag_set ≡ pos 0
    → is_neg a.blk_mq_alloc_disk ≡ false
    → is_nonzero a.add_disk ≡ true
    → state_after (ramdisk_blkdev_init a) ≡ none
unfolding ramdisk_blkdev_init
add_disk_failure a r d t m add = ground arith
