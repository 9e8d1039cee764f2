-- ===== src/Jit.antt =====
-- linux-device-drivers/04.time/jit.c: a timer and a tasklet that schedule themselves a fixed number of
-- times, and the readers that wait for them. Of a printed line the times are kept.
pub mod Delay
pub mod Loops
pub mod Readers
pub mod Currentime
pub mod Files
mod Tests
use linux_kernel_ldd.Prelude.{
  ℕ, ◌+◌, ◌-◌, ◌%◌, ◌^◌, Bool, true, false, not, Option, none, some, List, [], ◌∷◌, leb, ◌==◌,
  if◌then◌else◌, ◌||◌, ℤ, pos, negsuc,
}
use linux_kernel_ldd.Kernel.Errno.{enomem, erestartsys}
use linux_kernel_ldd.Kernel.Replay.{
  memory, proc_entry, Log, Outcome, release, claims, claims_if, frees, stop,
}

abbrev pub jit_async_loops : ℕ
jit_async_loops = 5

-- `struct jit_data`; `scheduled` is whether its timer is armed or its tasklet scheduled.
pub record JitData : Type 0 where
  pub expires : ℕ
  pub scheduled : Bool
  pub hi : Bool
  pub prevjiffies : ℕ
  pub loops : ℕ

-- A line: the time, and the time since the last line, as `unsigned long`s.
abbrev pub Line : Type 0
Line = ℕ × ℕ

abbrev pub line_at : ℕ → JitData → Line
line_at j d = (j, (j + 2 ^ 64 - d.prevjiffies) % 2 ^ 64)

-- `jit_timer_fn` at time `j`. The `int` `loops` wraps below 0; the reader is woken where the timer is
-- not armed again.
pub jit_timer_fn : ℕ → ℕ → JitData → Line × JitData
jit_timer_fn tdelay j d =
    let loops = (d.loops + 2 ^ 32 - 1) % 2 ^ 32 in
    (
      line_at j d,
      if loops == 0 then record d { loops = loops; scheduled = false } else record d {
        loops = loops;
        scheduled = true;
        expires = (d.expires + tdelay) % 2 ^ 64;
        prevjiffies = j;
      },
    )

-- `jit_tasklet_fn` at time `j`; `hi` chooses the queue.
pub jit_tasklet_fn : ℕ → JitData → Line × JitData
jit_tasklet_fn j d =
    let loops = (d.loops + 2 ^ 32 - 1) % 2 ^ 32 in
    (
      line_at j d,
      if loops == 0
          then record d { loops = loops; scheduled = false }
          else record d { loops = loops; scheduled = true; prevjiffies = j },
    )

-- The data that `jit_timer_show` and `jit_tasklet_show` set up at time `j` before they wait.
pub timer_start : ℕ → ℕ → JitData
timer_start tdelay j = record {
  expires = (j + tdelay) % 2 ^ 64;
  scheduled = true;
  hi = false;
  prevjiffies = j;
  loops = jit_async_loops;
}

pub tasklet_start : Bool → ℕ → JitData
tasklet_start hi j = record {
  expires = 0;
  scheduled = true;
  hi = hi;
  prevjiffies = j;
  loops = jit_async_loops;
}

-- The runs at the times `js`, as long as the data is scheduled: the lines, and the data after them.
pub runs : (ℕ → JitData → Line × JitData) → List ℕ → JitData → List Line × JitData
runs fn [] d = ([], d)
runs fn (j ∷ js) d =
    let (line, d') = fn j d in
    let rest = runs fn js d' in
    elim d.scheduled [ false ↦ ([], d) | true ↦ (line ∷ rest.0, rest.1) ]

-- The memory of `jit_timer_show` and `jit_tasklet_show`: `kmalloc` gives some or none, and a signal may
-- be pending at the end of the wait.
pub show_memory : Bool → Bool → Outcome
show_memory kmalloc signal =
    if not kmalloc
    then stop enomem
    else claims (memory 0) (if signal then stop erestartsys else frees (memory 0) (stop (pos 0)))

-- `enum jit_files`.
pub data JitFiles : Type 0 where
  jit_busy : JitFiles
  jit_sched : JitFiles
  jit_queue : JitFiles
  jit_schedto : JitFiles

-- An `int` added to an `unsigned long`: its sign is extended.
abbrev pub extended : ℤ → ℕ
extended (pos n) = n
extended (negsuc n) = 2 ^ 64 - (n + 1)

-- `time_before`: the sign of the difference.
pub time_before : ℕ → ℕ → Bool
time_before a b = leb (2 ^ 63) ((a + 2 ^ 64 - b) % 2 ^ 64)

-- `while (time_before(jiffies, j1))`, with `cpu_relax` or `schedule` as its body, over the values that
-- `jiffies` has at its tests: the values still to come after the loop, or `none` where it is still
-- running.
pub wait_until : ℕ → List ℕ → Option (List ℕ)
wait_until j1 [] = none
wait_until j1 (j ∷ js) = let rest = wait_until j1 js in if time_before j j1 then rest else some js

-- The wait of `jit_fn_show`. The last two modes leave it to the kernel.
pub jit_wait : JitFiles → ℕ → List ℕ → Option (List ℕ)
unfolding wait_until
jit_wait jit_busy j1 js = wait_until j1 js
jit_wait jit_sched j1 js = wait_until j1 js
jit_wait jit_queue j1 js = some js
jit_wait jit_schedto j1 js = some js

abbrev pub printed : ℕ → List ℕ → Option (ℕ × ℕ)
printed j0 [] = none
printed j0 (j1 ∷ js) = some (j0, j1)

abbrev pub waited : ℕ → Option (List ℕ) → Option (ℕ × ℕ)
waited j0 none = none
waited j0 (some js) = printed j0 js

-- `jit_fn_show`: the two times that it prints, for the values of `jiffies` at its reads in turn.
pub jit_fn_show : JitFiles → ℤ → List ℕ → Option (ℕ × ℕ)
unfolding jit_wait
jit_fn_show data_file delay [] = none
jit_fn_show data_file delay (j0 ∷ js) =
    waited j0 (jit_wait data_file ((j0 + extended delay) % 2 ^ 64) js)

-- The files in /proc by number, in the order of their creation: currentime, jitbusy, jitsched,
-- jitqueue, jitschedto, jitimer, jitasklet, jitasklethi.
abbrev pub jitimer : ℕ
jitimer = 5

-- `jit_init`, for what `proc_create_data` says to each file; its results are dropped.
unfoldable pub jit_init : (ℕ → Bool) → Outcome
jit_init created = claims_if (created 0) (proc_entry 0) (
    claims_if (created 1) (proc_entry 1) (
      claims_if (created 2) (proc_entry 2) (
        claims_if (created 3) (proc_entry 3) (
          claims_if (created 4) (proc_entry 4) (
            claims_if (created jitimer) (proc_entry jitimer) (
              claims_if (created 6) (proc_entry 6)
                (claims_if (created 7) (proc_entry 7) (stop (pos 0)))))))))

-- `jit_cleanup`.
unfoldable pub jit_cleanup : Log
jit_cleanup =
    release (proc_entry 0)
    ∷ release (proc_entry 1)
    ∷ release (proc_entry 2)
    ∷ release (proc_entry 3)
    ∷ release (proc_entry 4)
    ∷ release (proc_entry jitimer)
    ∷ release (proc_entry 6)
    ∷ release (proc_entry 7)
    ∷ []

-- What a reader gets: its result with what it claims and gives back, and the lines.
abbrev pub Shown : Type 0
Shown = Outcome × List Line

-- The part that `jit_timer_show` and `jit_tasklet_show` share, for data that are set up at time `j`:
-- the runs come at the times `js`, and then a signal is pending or not. `none` is a reader that still
-- waits.
pub show_runs : (ℕ → JitData → Line × JitData) → JitData → Bool → ℕ → List ℕ → Bool → Option Shown
unfolding runs show_memory
show_runs fn start kmalloc j js signal =
    let (lines, d) = runs fn js start in
    let out = show_memory kmalloc signal in
    if not kmalloc
    then some (out, [])
    else if signal || d.loops == 0
    then some (out, (j, 0) ∷ lines)
    else none

pub jit_timer_show : ℕ → Bool → ℕ → List ℕ → Bool → Option Shown
unfolding show_runs jit_timer_fn timer_start
jit_timer_show tdelay kmalloc j js signal =
    show_runs (jit_timer_fn tdelay) (timer_start tdelay j) kmalloc j js signal

pub jit_tasklet_show : Bool → Bool → ℕ → List ℕ → Bool → Option Shown
unfolding show_runs jit_tasklet_fn tasklet_start
jit_tasklet_show hi kmalloc j js signal =
    show_runs jit_tasklet_fn (tasklet_start hi j) kmalloc j js signal
