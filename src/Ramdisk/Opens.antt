-- ===== src/Ramdisk/Opens.antt =====
-- The opens of ramdisk_blk.c, which keep the block device, and ramdisk_blkdev_exit, which reads it.
use linux_kernel_ldd.Prelude.{
  ℕ, ◌≡◌, refl, ap, ◌∙◌, Bool, true, false, Option, none, some, List, [], ◌∷◌, ◌++◌, arith,
  if◌then◌else◌, ℤ, pos, is_neg,
}
use linux_kernel_ldd.Kernel.Replay.{
  Resource, memory, blkdev, tag_set, disk, disk_added, block_device, Log, release, replay_from,
  held_after, Outcome,
}
use linux_kernel_ldd.Ramdisk.{Answers, ramdisk_blkdev_init}
use linux_kernel_ldd.Ramdisk.Setup.{Registers}

-- The disk or one of its partitions.
pub record BlockDevice : Type 0 where
  pub number : ℕ
  pub partition : Bool

pub data Call : Type 0 where
  opens : BlockDevice → Call
  releases : Call

-- `ramdisk_blkdev_open`: its result, and `blk_prv->blkdev`.
pub ramdisk_blkdev_open : BlockDevice → Option BlockDevice → ℤ × Option BlockDevice
ramdisk_blkdev_open dev kept = (pos 0, some dev)

-- `ramdisk_blkdev_release` leaves it as it is.
pub ramdisk_blkdev_release : Option BlockDevice → Option BlockDevice
ramdisk_blkdev_release kept = kept

-- `blk_prv->blkdev` after a history of calls.
pub kept_after : Option BlockDevice → List Call → Option BlockDevice
unfolding ramdisk_blkdev_open ramdisk_blkdev_release
kept_after kept [] = kept
kept_after kept (opens dev ∷ calls) = kept_after (ramdisk_blkdev_open dev kept).1 calls
kept_after kept (releases ∷ calls) = kept_after (ramdisk_blkdev_release kept) calls

-- `blkdev_put` in `ramdisk_blkdev_exit`.
abbrev pub put_partition : BlockDevice → Log
put_partition dev = if dev.partition then release (block_device dev.number) ∷ [] else []

-- `ramdisk_blkdev_exit` for what `blk_prv->blkdev` is; `none` is the use of a NULL pointer.
pub exit_with : Option BlockDevice → Option Log
exit_with none = none
exit_with (some dev) = some (
    release disk_added ∷ release tag_set ∷ put_partition dev
    ++ release (memory 1) ∷ release blkdev ∷ release (memory 0) ∷ [])

-- What is held after an exit that follows.
abbrev pub exits : Option (List Resource) → Option Log → Option (List Resource)
exits held none = none
exits held (some log) = replay_from held log

abbrev pub later : Option BlockDevice → Option BlockDevice → Option BlockDevice
later none kept = kept
later (some dev) kept = some dev

-- The device that was opened last.
abbrev pub last_opened : List Call → Option BlockDevice
last_opened [] = none
last_opened (opens dev ∷ calls) = later (last_opened calls) (some dev)
last_opened (releases ∷ calls) = last_opened calls

later_assoc : (a b c : Option BlockDevice) → later a (later b c) ≡ later (later a b) c
later_assoc none b c = refl
later_assoc (some dev) b c = refl

kept_after_lem :
    (kept : Option BlockDevice) (calls : List Call)
    → kept_after kept calls ≡ later (last_opened calls) kept
unfolding kept_after ramdisk_blkdev_open ramdisk_blkdev_release
kept_after_lem kept [] = refl
kept_after_lem kept (opens dev ∷ calls) =
    kept_after_lem (some dev) calls ∙ later_assoc (last_opened calls) (some dev) kept
kept_after_lem kept (releases ∷ calls) = kept_after_lem kept calls

later-none : (a : Option BlockDevice) → later a none ≡ a
later-none none = refl
later-none (some dev) = refl

abbrev pub held_by : Option Outcome → Option (List Resource)
held_by none = none
held_by (some out) = held_after out

-- What the exit leaves held, `none` for a fault, by the device that was opened last.
abbrev pub left_by : Option BlockDevice → Option (List Resource)
left_by none = none
left_by (some dev) = if dev.partition then none else some (disk ∷ [])

exit_left :
    (a : Answers) (kept : Option BlockDevice)
    → Registers a
    → a.kzalloc_data ≡ true
    → a.blk_mq_alloc_tag_set ≡ pos 0
    → is_neg a.blk_mq_alloc_disk ≡ false
    → a.add_disk ≡ pos 0
    → exits (held_by (ramdisk_blkdev_init a)) (exit_with kept) ≡ left_by kept
unfolding ramdisk_blkdev_init exit_with
exit_left a none r d t m add = refl
exit_left a (some dev) r d t m add = ground arith

-- After a successful set-up and any history of opens and releases, with no file open at the exit: where the
-- disk itself was opened last, the exit leaves its structure alone held; where a partition was, it gives back
-- a block device that the driver never took; where nothing was opened, it uses a NULL pointer.
pub exit-opens :
    (a : Answers) (calls : List Call)
    → Registers a
    → a.kzalloc_data ≡ true
    → a.blk_mq_alloc_tag_set ≡ pos 0
    → is_neg a.blk_mq_alloc_disk ≡ false
    → a.add_disk ≡ pos 0
    → exits (held_by (ramdisk_blkdev_init a)) (exit_with (kept_after none calls))
      ≡ left_by (last_opened calls)
exit-opens a calls r d t m add =
    exit_left a (kept_after none calls) r d t m add
    ∙ ap left_by (kept_after_lem none calls ∙ later-none (last_opened calls))
