-- ===== src/Jiq.antt =====
-- linux-device-drivers/05.workqueues/jiq.c: work that prints lines and schedules itself until the page
-- is nearly full. What `seq_puts` and `seq_printf` add to the page is a number of bytes, an argument.
pub mod Page
pub mod Reader
pub mod Setup
pub mod Shared
pub mod Procs
use linux_kernel_ldd.Prelude.{
  ℕ, ◌+◌, ◌-◌, Bool, true, false, Option, none, some, List, [], ◌∷◌, ltb, ◌==◌, if◌then◌else◌, pos,
}
use mathlib.Core.Option
use linux_kernel_ldd.Kernel.Replay.{proc_entry, Log, Outcome, release, claims_if, stop}
use linux_kernel_ldd.Jit.{jitimer}

-- `LIMIT`, for the kernel's PAGE_SIZE.
abbrev pub limit : ℕ → ℕ
limit page_size = page_size - 128

-- `struct clientdata`, with the `count` of its `seq_file`; the time of the last line is `jiffies`.
pub record Clientdata : Type 0 where
  pub count : ℕ
  pub len : ℕ
  pub jiffies : ℕ
  pub delay : ℕ

-- `jiq_print` at time `j`, where the heading takes `heading` bytes and the line `line`: whether it asks
-- to be scheduled again. Where it does not, it wakes the reader.
pub jiq_print : ℕ → ℕ → ℕ → ℕ → Clientdata → Bool × Clientdata
jiq_print page_size heading line j client =
    let headed = if client.len == 0 then client.count + heading else client.count in
    let len = if client.len == 0 then headed else 0 in
    let count = headed + line in
    if ltb (limit page_size) client.len then (false, client) else (
      true,
      record { count = count; len = client.len + (len + count); jiffies = j; delay = client.delay },
    )

-- What `jiq_read_wq_show`, `jiq_read_wq_delayed_show` and `jiq_read_tasklet_show` put into the data
-- before they schedule the first run, the last one leaving the delay alone; the page is empty then.
pub read_wq_show : ℕ → Clientdata
read_wq_show j = record { count = 0; len = 0; jiffies = j; delay = 0 }

pub read_wq_delayed_show : ℕ → ℕ → Clientdata
read_wq_delayed_show delay j = record { count = 0; len = 0; jiffies = j; delay = delay }

pub read_tasklet_show : ℕ → Clientdata → Clientdata
read_tasklet_show j client = record { count = 0; len = 0; jiffies = j; delay = client.delay }

-- `jiq_print_wq`, `jiq_print_wq_delayed` and `jiq_print_tasklet`, over the runs that the kernel makes,
-- each with its time and the bytes of its line: the number of lines and the data at the wake-up of
-- the reader, or `none` where the runs are used up before it.
pub print_runs : ℕ → ℕ → List (ℕ × ℕ) → Clientdata → Option (ℕ × Clientdata)
unfolding jiq_print
print_runs page_size heading [] client = none
print_runs page_size heading ((j, line) ∷ runs) client =
    let (again, client') = jiq_print page_size heading line j client in
    elim again [
      | false ↦ some (0, client')
      | true ↦ Option.map (λ r. (r.0 + 1, r.1)) (print_runs page_size heading runs client')
    ]

-- The lines of `jiq_read_run_timer_show`: one at once, and one by `jiq_timedout` a second later.
pub run_timer : ℕ → ℕ → ℕ × ℕ → ℕ × ℕ → Clientdata → Clientdata
unfolding jiq_print read_tasklet_show
run_timer page_size heading (j, line) (j', line') client =
    let first = (jiq_print page_size heading line j (read_tasklet_show j client)).1 in
    (jiq_print page_size heading line' j' first).1

-- The files in /proc by number; `jitimer` is a name of jit.c too. jiqwq, jiqwqdelay, jitimer and
-- jiqtasklet are created in this order.
abbrev pub jiqwq : ℕ
jiqwq = 8

abbrev pub jiqwqdelay : ℕ
jiqwqdelay = 9

abbrev pub jiqtasklet : ℕ
jiqtasklet = 10

-- `jiq_init`, for what `proc_create` says to each file; its results are dropped.
pub jiq_init : (ℕ → Bool) → Outcome
jiq_init created = claims_if (created jiqwq) (proc_entry jiqwq) (
    claims_if (created jiqwqdelay) (proc_entry jiqwqdelay) (
      claims_if (created jitimer) (proc_entry jitimer)
        (claims_if (created jiqtasklet) (proc_entry jiqtasklet) (stop (pos 0)))))

-- `jiq_cleanup`.
pub jiq_cleanup : Log
jiq_cleanup =
    release (proc_entry jiqwq)
    ∷ release (proc_entry jiqwqdelay)
    ∷ release (proc_entry jitimer)
    ∷ release (proc_entry jiqtasklet)
    ∷ []
