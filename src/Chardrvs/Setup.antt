-- ===== src/Chardrvs/Setup.antt =====
-- chardrvs_init and chardrvs_clean, with CHARDRVS_DBG as chardrvs.h defines it: which kernel objects
-- they claim and give back.
use linux_kernel_ldd.Prelude.{
  ◌≡◌, Bool, true, false, not, some, [], ◌∷◌, ◌++◌, ℤ, pos, is_neg, is_nonzero, if◌then◌else◌,
  arith,
}
use linux_kernel_ldd.Kernel.Errno.{enomem}
use linux_kernel_ldd.Kernel.Replay.{
  Resource, memory, chrdev_region, class, device, cdev, fifo, proc_file, dbg_dir, dbg_file, Log,
  Outcome, release, claims, frees, stop, held_after, held_after_both,
}

-- What debugfs gives: an entry, or an error pointer, which is not NULL.
pub data DbgPointer : Type 0 where
  entry : DbgPointer
  err_ptr : DbgPointer
  null : DbgPointer

abbrev is_null : DbgPointer → Bool
is_null null = true
is_null entry = false
is_null err_ptr = false

-- What the kernel answers to each call: whether an allocation gives a pointer, the return value, or
-- the `PTR_ERR` of a pointer.
pub record Answers : Type 0 where
  pub kmalloc : Bool
  pub alloc_chrdev_region : ℤ
  pub class_create : ℤ
  pub device_create : ℤ
  pub cdev_add : ℤ
  pub kfifo_alloc : ℤ
  pub proc_create : Bool
  pub debugfs_create_dir : DbgPointer
  pub debugfs_create_file : DbgPointer

-- Only an entry is an object to give back.
abbrev claims_entry : DbgPointer → Resource → Outcome → Outcome
claims_entry entry r out = claims r out
claims_entry err_ptr r out = out
claims_entry null r out = out

-- `debugfs_remove` passes over error pointers and NULL.
abbrev frees_entry : DbgPointer → Resource → Outcome → Outcome
frees_entry entry r out = frees r out
frees_entry err_ptr r out = out
frees_entry null r out = out

-- The labels of `chardrvs_init`, each falling through to the next.
abbrev pub err_free_dev : ℤ → Outcome
err_free_dev ret = frees (memory 0) (stop ret)

abbrev pub err_unregister_chrdev : ℤ → Outcome
err_unregister_chrdev ret = frees chrdev_region (err_free_dev ret)

abbrev pub err_destruct_class : ℤ → Outcome
err_destruct_class ret = frees class (err_unregister_chrdev ret)

abbrev pub err_destruct_device : ℤ → Outcome
err_destruct_device ret = frees (device 0) (err_destruct_class ret)

abbrev pub err_unregister_cdev : ℤ → Outcome
err_unregister_cdev ret = frees (cdev 0) (err_destruct_device ret)

abbrev pub err_setup_chardrvs : ℤ → Outcome
err_setup_chardrvs ret = frees (fifo 0) (err_unregister_cdev ret)

abbrev pub err_procfs : ℤ → Outcome
err_procfs ret = frees proc_file (err_setup_chardrvs ret)

abbrev pub err_dbg_dir : DbgPointer → ℤ → Outcome
err_dbg_dir dir ret = frees_entry dir dbg_dir (err_procfs ret)

-- The part of `chardrvs_init` under CHARDRVS_DBG, and its `return 0`.
pub init_dbg : Answers → Outcome
init_dbg a =
    let file = a.debugfs_create_file in
    if not a.proc_create
    then err_setup_chardrvs enomem
    else claims proc_file (
        if is_null a.debugfs_create_dir
        then err_procfs enomem
        else claims_entry a.debugfs_create_dir dbg_dir (
            if is_null file
            then err_dbg_dir a.debugfs_create_dir enomem
            else claims_entry file dbg_file (stop (pos 0))))

-- The part from `device_create` to `setup_chardrvs`.
pub init_dev : Answers → Outcome
unfolding init_dbg
init_dev a =
    if is_neg a.device_create
    then err_destruct_class a.device_create
    else claims (device 0) (
        if is_nonzero a.cdev_add
        then err_destruct_device a.cdev_add
        else claims (cdev 0) (
            if is_nonzero a.kfifo_alloc
            then err_unregister_cdev a.kfifo_alloc
            else claims (fifo 0) (init_dbg a)))

-- `chardrvs_init`: its result, and its claims and releases in order.
unfoldable pub chardrvs_init : Answers → Outcome
unfolding init_dev
chardrvs_init a =
    if not a.kmalloc
    then stop enomem
    else claims (memory 0) (
        if is_neg a.alloc_chrdev_region
        then err_free_dev a.alloc_chrdev_region
        else claims chrdev_region (
            if is_neg a.class_create
            then err_unregister_chrdev a.class_create
            else claims class (init_dev a)))

-- `debugfs_remove(dev->dbg_dir)` in `chardrvs_clean` takes the file in the directory with it.
abbrev remove_dbg : DbgPointer → DbgPointer → Log
remove_dbg entry entry = release dbg_file ∷ release dbg_dir ∷ []
remove_dbg entry err_ptr = release dbg_dir ∷ []
remove_dbg entry null = release dbg_dir ∷ []
remove_dbg err_ptr file = []
remove_dbg null file = []

-- `chardrvs_clean`.
pub chardrvs_clean : Answers → Log
chardrvs_clean a =
    release (cdev 0)
    ∷ release (device 0)
    ∷ release class
    ∷ release chrdev_region
    ∷ release (fifo 0)
    ∷ release proc_file
    ∷ (remove_dbg a.debugfs_create_dir a.debugfs_create_file ++ release (memory 0) ∷ [])

-- `chardrvs_init` reports success or leaves nothing behind: where its result is not 0 it has given
-- back, once each, all that it claimed, at whichever call it failed.
pub chardrvs_init_unwinds :
    (a : Answers) → is_nonzero (chardrvs_init a).0 ≡ true → held_after (chardrvs_init a) ≡ some []
unfolding chardrvs_init
chardrvs_init_unwinds a h = ground arith

-- After a successful `chardrvs_init`, `chardrvs_clean` gives back all of it, each object once, where
-- debugfs refuses a file if it refused its directory.
pub chardrvs_clean-chardrvs_init :
    (a : Answers)
    → (chardrvs_init a).0 ≡ pos 0
    → (a.debugfs_create_dir ≡ err_ptr → a.debugfs_create_file ≡ err_ptr)
    → held_after_both (chardrvs_init a) (chardrvs_clean a) ≡ some []
unfolding chardrvs_init chardrvs_clean
chardrvs_clean-chardrvs_init a h dbg = ground (arith, dbg)
