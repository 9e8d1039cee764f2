-- ===== src/Gpiopulse.antt =====
-- linux-device-drivers/14.gpio_pulse/pltdrv_gpiopulse.c: a pin that a timer toggles, with attributes
-- that start and stop it and set its period. The texts of the attributes and the label are left out.
pub mod Wave
pub mod Probe
mod Tests
use linux_kernel_ldd.Prelude.{
  ℕ, ◌%◌, ◌^◌, Bool, true, not, Option, none, some, [], ◌∷◌, ◌==◌, if◌then◌else◌, ℤ, pos, is_neg,
  is_nonzero,
}
use linux_kernel_ldd.Kernel.Errno.{enomem, einval}
use linux_kernel_ldd.Kernel.Replay.{class, device, driver, Log, Outcome, release, claims, stop}

-- `struct gpiopulse_prvt_devc` with the value of its pin. The numbers are `int`s as bit patterns; the
-- timer is the delay in milliseconds that it was last armed with, while it is armed.
pub record GpiopulsePrvtDevc : Type 0 where
  pub pin : Bool
  pub enablepulse : ℕ
  pub pulsetime : ℕ
  pub timer : Option ℕ

-- `mod_timer` with the period as delay.
abbrev pub arm : GpiopulsePrvtDevc → GpiopulsePrvtDevc
arm dev = record dev { timer = some dev.pulsetime }

-- `timer_cbk`: a timer that goes off is not armed any more, and the code arms it again or does not.
pub timer_cbk : GpiopulsePrvtDevc → GpiopulsePrvtDevc
timer_cbk dev =
    let dev' = record dev { pin = not dev.pin; timer = none } in
    if dev'.enablepulse == 0 then dev' else arm dev'

-- What `kstrtol` gives: its result, and the `long` as a bit pattern of 64 bits.
pub record Kstrtol : Type 0 where
  pub ret : ℤ
  pub value : ℕ

-- `enablepulse_store`: an `int` is kept, and the `long` is tested.
pub enablepulse_store : Kstrtol → ℕ → GpiopulsePrvtDevc → ℤ × GpiopulsePrvtDevc
enablepulse_store parsed count dev =
    let dev' = record dev { enablepulse = parsed.value % 2 ^ 32 } in
    if is_nonzero parsed.ret
    then (parsed.ret, dev)
    else (pos count, if parsed.value == 0 then dev' else arm dev')

-- `pulsetime_store`.
pub pulsetime_store : Kstrtol → ℕ → GpiopulsePrvtDevc → ℤ × GpiopulsePrvtDevc
pulsetime_store parsed count dev =
    if is_nonzero parsed.ret
    then (parsed.ret, dev)
    else (pos count, record dev { pulsetime = parsed.value % 2 ^ 32 })

-- What the device tree and the kernel answer to `parse_dt_arg_dev` and `pltdrv_gpiopulse_probe`.
-- `devm_kzalloc` gives memory: NULL is not what IS_ERR tests for.
pub record Answers : Type 0 where
  pub of_node : Bool
  pub gpio_request : ℤ
  pub label : Bool
  pub of_enablepulse : Option ℕ
  pub of_pulsetime : Option ℕ
  pub device_create : ℤ
  pub direction_output : ℤ

abbrev pub from_props : Option ℕ → Option ℕ → ℤ × ℕ × ℕ
from_props none p = (einval, 0, 0)
from_props (some e) none = (einval, e, 0)
from_props (some e) (some p) = (pos 0, e, p)

-- `parse_dt_arg_dev`, with the two numbers that it reads.
pub parse_dt_arg_dev : Answers → ℤ × ℕ × ℕ
parse_dt_arg_dev a =
    if not a.of_node
    then (einval, 0, 0)
    else if is_nonzero a.gpio_request
    then (enomem, 0, 0)
    else if not a.label
    then (einval, 0, 0)
    else from_props a.of_enablepulse a.of_pulsetime

-- `pltdrv_gpiopulse_probe`: what it claims. The kernel gives back the memory and the pin.
pub pltdrv_gpiopulse_probe : Answers → Outcome
unfolding parse_dt_arg_dev
pltdrv_gpiopulse_probe a =
    if is_nonzero (parse_dt_arg_dev a).0
    then stop (parse_dt_arg_dev a).0
    else if is_neg a.device_create
    then stop a.device_create
    else claims (device 0) (stop a.direction_output)

-- The device after a successful probe: the pin is high and the timer armed, enabled or not.
pub probed_dev : Answers → GpiopulsePrvtDevc
unfolding parse_dt_arg_dev
probed_dev a =
    let (ret, enable, time) = parse_dt_arg_dev a in
    arm (record { pin = true; enablepulse = enable; pulsetime = time; timer = none })

-- `pltdrv_gpiopulse_remove`, for what it gives back, and for the timer.
pub pltdrv_gpiopulse_remove : Log
pltdrv_gpiopulse_remove = release (device 0) ∷ []

abbrev pub removed_dev : GpiopulsePrvtDevc → GpiopulsePrvtDevc
removed_dev dev = record dev { timer = none }

-- `pltdrv_gpiopulse_init`, with the `PTR_ERR` of `class_create` and the result of
-- `platform_driver_register`, which the code drops; and `pltdrv_gpiopulse_exit`.
pub pltdrv_gpiopulse_init : ℤ → ℤ → Outcome
pltdrv_gpiopulse_init class_create registered =
    if is_neg class_create
    then stop class_create
    else claims class (if is_nonzero registered then stop (pos 0) else claims driver (stop (pos 0)))

pub pltdrv_gpiopulse_exit : Log
pltdrv_gpiopulse_exit = release driver ∷ release class ∷ []
