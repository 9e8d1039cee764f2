-- ===== src/Mcdevdrvs/Setup.antt =====
-- mcdevdrvs_init and mcdevdrvs_exit: what is held after them.
use linux_kernel_ldd.Prelude.{◌≡◌, ◌⊎◌, true, false, none, some, [], pos, is_neg, is_nonzero, arith}
use linux_kernel_ldd.Kernel.Replay.{held_after, held_after_both}
use linux_kernel_ldd.Mcdevdrvs.{Answers, mcdevdrvs_init, mcdevdrvs_exit}

-- The region and the class are there, so that the loops run.
pub record Starts (a : Answers) : Type 0 where
  pub region : a.alloc_chrdev_region ≡ pos 0
  pub classed : is_neg a.class_create ≡ false

-- Both devices come to be.
pub record Created (a : Answers) : Type 0 where
  pub device_0 : is_neg (a.device_create 0) ≡ false
  pub cdev_0 : a.cdev_add 0 ≡ pos 0
  pub device_1 : is_neg (a.device_create 1) ≡ false
  pub cdev_1 : a.cdev_add 1 ≡ pos 0

-- Where every call succeeds, `mcdevdrvs_init` returns 0 and `mcdevdrvs_exit` gives back all that it
-- claimed, each object once.
pub mcdevdrvs_exit-init :
    (a : Answers)
    → Starts a
    → Created a
    → a.kfifo_alloc 0 ≡ pos 0
    → a.kfifo_alloc 1 ≡ pos 0
    → ((mcdevdrvs_init a).0 ≡ pos 0) × (held_after_both (mcdevdrvs_init a) mcdevdrvs_exit ≡ some [])
unfolding mcdevdrvs_init mcdevdrvs_exit
mcdevdrvs_exit-init a s c f g = ground arith

-- Where the class cannot be made, `mcdevdrvs_init` fails with nothing held.
pub mcdevdrvs_init-class_fails :
    (a : Answers)
    → is_neg a.class_create ≡ true
    → (is_neg (mcdevdrvs_init a).0 ≡ true) × (held_after (mcdevdrvs_init a) ≡ some [])
unfolding mcdevdrvs_init
mcdevdrvs_init-class_fails a h = ground arith

-- Where the region and the class are there and a device, a cdev or a FIFO fails, the clean-up starts with the object that was not made, or
-- with a third device: it gives back what is not held.
pub mcdevdrvs_init_overruns :
    (a : Answers)
    → Starts a
    → (is_neg (a.device_create 0) ≡ true)
      ⊎ (is_nonzero (a.cdev_add 0) ≡ true)
      ⊎ (is_neg (a.device_create 1) ≡ true)
      ⊎ (is_nonzero (a.cdev_add 1) ≡ true)
      ⊎ (is_nonzero (a.kfifo_alloc 0) ≡ true)
      ⊎ (is_nonzero (a.kfifo_alloc 1) ≡ true)
    → held_after (mcdevdrvs_init a) ≡ none
unfolding mcdevdrvs_init
mcdevdrvs_init_overruns a s h = ground arith
