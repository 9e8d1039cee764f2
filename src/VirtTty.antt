-- ===== src/VirtTty.antt =====
-- linux-device-drivers/16.virt_tty/virt_tty.c: a virtual serial line. While it is open a timer puts a
-- text into its input once a second. `del_timer` does not wait for a run of the timer's function. The mutex is held within each handler only.
pub mod Lines
pub mod Setup
mod Tests
use linux_kernel_ldd.Prelude.{
  ℕ, zero, suc, ◌+◌, ◌-◌, Bool, true, false, Option, none, some, List, [], ◌∷◌, ℤ, pos, is_nonzero,
  ◌++◌, take, not, leb, ◌&&◌, ◌||◌, ◌==◌, if◌then◌else◌,
}
use linux_kernel_ldd.Kernel.Errno.{enodev, enomem}
use linux_kernel_ldd.Kernel.Replay.{
  memory, tty_driver, tty_port, tty_device, tty_registered, Log, Outcome, release, claims, frees,
  stop,
}

-- `struct virt_tty_dev`; a timer is whether it is armed.
pub record VirtTtyDev : Type 0 where
  pub open_count : ℕ
  pub timer : Bool

-- "Hello ttyvirt driver, " with its final 0, as `sizeof` counts it.
abbrev pub hello : List ℕ
hello =
    72 ∷ 101 ∷ 108 ∷ 108 ∷ 111 ∷ 32 ∷ 116 ∷ 116 ∷ 121 ∷ 118 ∷ 105 ∷ 114 ∷ 116 ∷ 32 ∷ 100 ∷ 114 ∷ 105
    ∷ 118 ∷ 101 ∷ 114 ∷ 44 ∷ 32 ∷ 0 ∷ []

-- Where a run of `timer_cbk` is: the kernel runs at most one at a time.
pub data Callback : Type 0 where
  idle : Callback
  inserting : Callback
  rearming : Callback

-- The line with what its input has got so far, the run of `timer_cbk`, and whether `timer_setup` has
-- met an armed timer, after which the kernel promises nothing.
pub record Line : Type 0 where
  pub dev : VirtTtyDev
  pub callback : Callback
  pub input : List ℕ
  pub clobbered : Bool

-- The timer goes off: the kernel takes it off its list and starts `timer_cbk`.
pub goes_off : Line → Line
goes_off line = record line { dev = record line.dev { timer = false }; callback = inserting }

-- `timer_cbk` up to its `mod_timer`: the input of the line grows.
pub insert_text : Line → Line
insert_text line = record line { callback = rearming; input = line.input ++ hello }

-- Its `mod_timer`, whatever has come in between.
pub rearm : Line → Line
rearm line = record line { dev = record line.dev { timer = true }; callback = idle }

-- `virttty_open`.
pub virttty_open : VirtTtyDev → VirtTtyDev
virttty_open dev =
    let n = dev.open_count + 1 in
    record { open_count = n; timer = if n == 1 then true else dev.timer }

-- `virttty_open` with its `timer_setup`, at the first open.
pub open_line : Line → Line
unfolding virttty_open
open_line line = record line {
  dev = virttty_open line.dev;
  clobbered = line.clobbered || (line.dev.open_count == 0 && line.dev.timer);
}

-- `do_close`: `open_count` is an `int`, and is above 0 where it is counted down.
pub do_close : VirtTtyDev → VirtTtyDev
do_close dev =
    if dev.open_count == 0
    then dev
    else (let n = dev.open_count - 1 in
        record { open_count = n; timer = if leb n 0 then false else dev.timer })

-- `virttty_close`: `driver_data` is the device from the first open on.
pub virttty_close : Option VirtTtyDev → Option VirtTtyDev
unfolding do_close
virttty_close none = none
virttty_close (some dev) = some (do_close dev)

-- `virttty_write`: what it returns, and the bytes that go to the simulated hardware.
pub virttty_write : Option VirtTtyDev → List ℕ → ℕ → ℤ × List ℕ
virttty_write none buffer count = (enodev, [])
virttty_write (some dev) buffer count =
    if dev.open_count == 0 then (pos count, []) else (pos count, take count buffer)

abbrev pub room_size : ℕ
room_size = 255

-- `virttty_write_room`.
pub virttty_write_room : ℕ
virttty_write_room = room_size

-- The loop of `virttty_exit`, `while (open_count) do_close(...)`, on fuel.
pub close_all : ℕ → VirtTtyDev → VirtTtyDev
close_all zero dev = dev
close_all (suc fuel) dev = elim (dev.open_count == 0) [
  | true ↦ dev
  | false ↦ close_all fuel (do_close dev)
]

-- The device at the `kfree` of `virttty_exit`: closed, and its timer deleted.
pub shut_down : VirtTtyDev → VirtTtyDev
unfolding close_all
shut_down dev = record (close_all dev.open_count dev) { timer = false }

-- What the kernel answers to each call of `virttty_init`.
pub record Answers : Type 0 where
  pub tty_alloc_driver : Bool
  pub tty_register_driver : ℤ
  pub kmalloc : Bool

-- The labels of `virttty_init`.
abbrev pub err_tty_and_prt : ℤ → Outcome
err_tty_and_prt ret = frees tty_port (frees tty_registered (stop ret))

abbrev pub unreg_dev : ℤ → Outcome
unreg_dev ret = frees tty_device (err_tty_and_prt ret)

-- `virttty_init`. `tty_driver` is the reference that `tty_alloc_driver` gives, `tty_registered` the
-- registration.
pub virttty_init : Answers → Outcome
virttty_init a =
    if not a.tty_alloc_driver
    then stop enomem
    else claims tty_driver (
        claims tty_port (
          if is_nonzero a.tty_register_driver
          then err_tty_and_prt a.tty_register_driver
          else claims tty_registered (
              claims tty_device
                (if not a.kmalloc then unreg_dev enomem else claims (memory 0) (stop (pos 0))))))

-- `virttty_exit`, for what it gives back.
pub virttty_exit : Log
virttty_exit =
    release tty_device ∷ release tty_port ∷ release tty_registered ∷ release (memory 0) ∷ []

-- `virttty_tiocmget` and `virttty_tiocmset`: no line of a modem is simulated.
pub virttty_tiocmget : ℤ
virttty_tiocmget = pos 0

pub virttty_tiocmset : ℕ → ℕ → ℤ
virttty_tiocmset set clear = pos 0
