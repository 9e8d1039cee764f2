-- ===== src/VirtTty/Setup.antt =====
-- virttty_init and virttty_exit: what is held after them.
use linux_kernel_ldd.Prelude.{
  ◌≡◌, ◌⊎◌, true, false, none, some, [], ◌∷◌, pos, is_nonzero, if◌then◌else◌, arith,
}
use linux_kernel_ldd.Kernel.Replay.{tty_driver, held_after, held_after_both}
use linux_kernel_ldd.VirtTty.{Answers, virttty_init, virttty_exit}

-- After a successful `virttty_init`, `virttty_exit` gives back all but the reference to the driver
-- structure that `tty_alloc_driver` gave.
pub virttty_exit-init :
    (a : Answers)
    → (virttty_init a).0 ≡ pos 0
    → held_after_both (virttty_init a) virttty_exit ≡ some (tty_driver ∷ [])
unfolding virttty_init virttty_exit
virttty_exit-init a h = ground arith

-- Where the memory for the device is refused, `virttty_init` returns an error and keeps the reference
-- to the driver structure; where the registration is refused, it unregisters what is not registered.
pub virttty_init_fails :
    (a : Answers)
    → a.tty_alloc_driver ≡ true
    → (is_nonzero a.tty_register_driver ≡ true) ⊎ (a.kmalloc ≡ false)
    → (is_nonzero (virttty_init a).0 ≡ true)
      × (held_after (virttty_init a)
          ≡ (if is_nonzero a.tty_register_driver then none else some (tty_driver ∷ [])))
unfolding virttty_init
virttty_init_fails a alloc h = ground arith
