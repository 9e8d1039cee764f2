-- ===== src/VirtbusLoad.antt =====
-- linux-device-drivers/10.virtbusdevs_load/virtbusdevs_load.c: two devices for the bus.
use linux_kernel_ldd.Prelude.{
  ℕ, ◌≡◌, ◌||◌, ◌++◌, none, some, List, [], ◌∷◌, arith, if◌then◌else◌, ℤ, pos, is_nonzero,
}
use linux_kernel_ldd.Kernel.Replay.{Log, Outcome, held_after_both}
use linux_kernel_ldd.Virtbus.{VirtbusDev, register_virtbus_device, unregister_virtbus_device}

-- "virtbus-fifo-dev".
abbrev pub fifo_dev_name : List ℕ
fifo_dev_name =
    118 ∷ 105 ∷ 114 ∷ 116 ∷ 98 ∷ 117 ∷ 115 ∷ 45 ∷ 102 ∷ 105 ∷ 102 ∷ 111 ∷ 45 ∷ 100 ∷ 101 ∷ 118 ∷ []

abbrev pub virtbus_dev0 : VirtbusDev
virtbus_dev0 = record { name = fifo_dev_name; id = 0 }

abbrev pub virtbus_dev1 : VirtbusDev
virtbus_dev1 = record { name = fifo_dev_name; id = 1 }

-- `virtbusdevs_load_init`, for the results of `device_register`; both are dropped.
pub virtbusdevs_load_init : ℤ → ℤ → Outcome
unfolding register_virtbus_device
virtbusdevs_load_init registered0 registered1 = (
  pos 0,
  (register_virtbus_device virtbus_dev0 registered0).1
      ++ (register_virtbus_device virtbus_dev1 registered1).1,
)

-- `virtbusdevs_load_exit`.
pub virtbusdevs_load_exit : Log
unfolding unregister_virtbus_device
virtbusdevs_load_exit =
    unregister_virtbus_device virtbus_dev0 ++ unregister_virtbus_device virtbus_dev1

-- The load reports success whatever the bus says; the unload gives both devices back where the bus took
-- both, and unregisters one that was never registered where it did not.
pub virtbusdevs_load_brackets :
    (registered0 registered1 : ℤ)
    → ((virtbusdevs_load_init registered0 registered1).0 ≡ pos 0)
      × (held_after_both (virtbusdevs_load_init registered0 registered1) virtbusdevs_load_exit
          ≡ (if is_nonzero registered0 || is_nonzero registered1 then none else some []))
unfolding virtbusdevs_load_init virtbusdevs_load_exit register_virtbus_device
    unregister_virtbus_device
virtbusdevs_load_brackets registered0 registered1 = ground arith
