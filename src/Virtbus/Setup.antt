-- ===== src/Virtbus/Setup.antt =====
-- virtbus_init and virtbus_exit: what is held after them.
use linux_kernel_ldd.Prelude.{◌≡◌, some, [], arith, if◌then◌else◌, ℤ, is_nonzero}
use linux_kernel_ldd.Kernel.Replay.{held_after, held_after_both}
use linux_kernel_ldd.Virtbus.{virtbus_init, virtbus_exit}

-- `virtbus_init` leaves nothing held where it fails, and where it does not `virtbus_exit` gives back
-- what it claimed.
pub virtbus_exit-init :
    (registered device_registered : ℤ)
    → let up = virtbus_init registered device_registered in
      (if is_nonzero up.0 then held_after up else held_after_both up virtbus_exit) ≡ some []
unfolding virtbus_init virtbus_exit
virtbus_exit-init registered device_registered = ground arith
