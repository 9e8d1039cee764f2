-- ===== src/Virtbus.antt =====
-- linux-device-drivers/09.virtbus/virtbus.c: a bus that matches devices and drivers by name. A string
-- is the list of its bytes, without the final 0.
pub mod Match
pub mod Setup
use linux_kernel_ldd.Prelude.{
  ℕ, Bool, true, false, ◌&&◌, List, [], ◌∷◌, ◌++◌, ◌==◌, if◌then◌else◌, ℤ, pos, is_nonzero,
}
use linux_kernel_ldd.Kernel.Errno.{enomem}
use linux_kernel_ldd.Kernel.Replay.{
  bus, bus_device, virtbus_device, driver, Log, Outcome, release, claims, frees, stop,
}

-- `!strncmp(s, t, strlen(t))`: the first `strlen(t)` bytes of both are the same.
pub same_start : List ℕ → List ℕ → Bool
same_start s [] = true
same_start [] (c ∷ t) = false
same_start (b ∷ s) (c ∷ t) = b == c && same_start s t

-- `virtbus_match`, for the names of a device and a driver.
pub virtbus_match : List ℕ → List ℕ → Bool
unfolding same_start
virtbus_match dev_name driver_name = same_start dev_name driver_name

-- The name that `register_virtbus_device` gives to a device: "%s-%d", for the digits of its id.
pub registered_name : List ℕ → List ℕ → List ℕ
registered_name name digits = name ++ (45 ∷ digits)

-- `virtbus_init`, for the results of `bus_register` and `device_register`.
pub virtbus_init : ℤ → ℤ → Outcome
virtbus_init registered device_registered =
    if is_nonzero registered
    then stop registered
    else claims bus (
        if is_nonzero device_registered
        then frees bus (stop device_registered)
        else claims bus_device (stop (pos 0)))

-- `virtbus_exit`.
pub virtbus_exit : Log
virtbus_exit = release bus_device ∷ release bus ∷ []

-- `struct virtbus_dev`.
pub record VirtbusDev : Type 0 where
  pub name : List ℕ
  pub id : ℕ

-- `register_virtbus_device`, for the result of `device_register`.
unfoldable pub register_virtbus_device : VirtbusDev → ℤ → Outcome
register_virtbus_device virtbusdev registered =
    if is_nonzero registered
    then stop registered
    else claims (virtbus_device virtbusdev.id) (stop registered)

-- `unregister_virtbus_device`.
unfoldable pub unregister_virtbus_device : VirtbusDev → Log
unregister_virtbus_device virtbusdev = release (virtbus_device virtbusdev.id) ∷ []

-- `register_virtbus_driver`, for the result of `driver_register`, and `unregister_virtbus_driver`.
pub register_virtbus_driver : ℤ → Outcome
register_virtbus_driver registered =
    if is_nonzero registered then stop registered else claims driver (stop registered)

pub unregister_virtbus_driver : Log
unregister_virtbus_driver = release driver ∷ []

-- `virtbus_uevent`, for the result of `add_uevent_var`.
pub virtbus_uevent : ℤ → ℤ
virtbus_uevent added = if is_nonzero added then enomem else pos 0
