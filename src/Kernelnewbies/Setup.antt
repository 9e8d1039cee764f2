-- ===== src/Kernelnewbies/Setup.antt =====
-- kernelnewbies_init and kernelnewbies_exit: what is held after them.
use linux_kernel_ldd.Prelude.{◌≡◌, ◌⊎◌, true, false, none, some, [], pos, is_neg, is_nonzero, arith}
use linux_kernel_ldd.Kernel.Replay.{held_after, held_after_both}
use linux_kernel_ldd.Kernelnewbies.{Answers, kernelnewbies_init, kernelnewbies_exit}

-- Where every call succeeds, `kernelnewbies_init` returns 0 and `kernelnewbies_exit` gives back all
-- that it claimed, each object once.
pub kernelnewbies_exit-init :
    (a : Answers)
    → is_neg a.alloc_chrdev_region ≡ false
    → is_neg a.class_create ≡ false
    → is_neg a.device_create ≡ false
    → a.cdev_add ≡ pos 0
    → a.kfifo_alloc ≡ pos 0
    → ((kernelnewbies_init a).0 ≡ pos 0)
      × (held_after_both (kernelnewbies_init a) kernelnewbies_exit ≡ some [])
unfolding kernelnewbies_init kernelnewbies_exit
kernelnewbies_exit-init a r c d e f = ground arith

-- Whatever call fails, `kernelnewbies_init` gives back all that it claimed, each object once.
pub kernelnewbies_init_unwinds :
    (a : Answers)
    → (is_neg a.alloc_chrdev_region ≡ true)
      ⊎ (is_neg a.class_create ≡ true)
      ⊎ (is_neg a.device_create ≡ true)
      ⊎ (is_nonzero a.cdev_add ≡ true)
      ⊎ (is_nonzero a.kfifo_alloc ≡ true)
    → held_after (kernelnewbies_init a) ≡ some []
unfolding kernelnewbies_init
kernelnewbies_init_unwinds a h = ground arith

-- Where `cdev_add` is the first call that fails, `kernelnewbies_init` returns the 0 of
-- `alloc_chrdev_region`: the module stays loaded with nothing set up, and `kernelnewbies_exit` then
-- gives back what is not held.
pub cdev_add_failure_hidden :
    (a : Answers)
    → a.alloc_chrdev_region ≡ pos 0
    → is_neg a.class_create ≡ false
    → is_neg a.device_create ≡ false
    → is_nonzero a.cdev_add ≡ true
    → ((kernelnewbies_init a).0 ≡ pos 0)
      × (held_after (kernelnewbies_init a) ≡ some [])
      × (held_after_both (kernelnewbies_init a) kernelnewbies_exit ≡ none)
unfolding kernelnewbies_init kernelnewbies_exit
cdev_add_failure_hidden a r c d e = ground arith
