-- ===== src/Jit/Readers.antt =====
-- The readers of jit.c that wait for a timer or a tasklet.
use linux_kernel_ldd.Prelude.{
  ℕ, ◌≤◌, ◌≡◌, refl, Bool, true, false, Option, some, List, [], ◌∷◌, length, take, ℤ, pos,
}
use mathlib.Core.Option
use linux_kernel_ldd.Kernel.Errno.{erestartsys}
use linux_kernel_ldd.Kernel.Replay.{Resource, memory, held_after}
use linux_kernel_ldd.Jit.{
  JitData, Line, Shown, jit_async_loops, jit_timer_fn, jit_tasklet_fn, timer_start, tasklet_start,
  runs, show_memory, show_runs, jit_timer_show, jit_tasklet_show,
}
use linux_kernel_ldd.Jit.Loops.{times, timer_ends, tasklet_ends}

-- The result of a reader, the times of its lines, and what it leaves held.
abbrev pub Seen : Type 0
Seen = ℤ × List ℕ × Option (List Resource)

abbrev pub seen : Option Shown → Option Seen
seen shown = Option.map (λ s. (s.0.0, times s.1, held_after s.0)) shown

module _ (fn : ℕ → JitData → Line × JitData) (start : JitData) where
  show_runs_done :
      (j : ℕ) (js ts : List ℕ)
      → (times (runs fn js start).0 ≡ ts) × ((runs fn js start).1.loops ≡ 0)
      → seen (show_runs fn start true j js false) ≡ some (pos 0, j ∷ ts, some [])
  unfolding show_runs show_memory times
  show_runs_done j js ts h = rw (h.1, h.0) refl

  show_runs_signal :
      (j : ℕ) (js : List ℕ)
      → seen (show_runs fn start true j js true)
        ≡ some (erestartsys, j ∷ times (runs fn js start).0, some (memory 0 ∷ []))
  unfolding show_runs show_memory times
  show_runs_signal j js = refl

-- The readers of the timer and of the tasklet return 0 without a signal, once the five runs have come,
-- however late each comes: they show the time of their start and of each run, and free their memory. A
-- signal makes them return early with an error, the lines that they have, and the memory still held.
pub jit_show_returns :
    (tdelay : ℕ) (hi : Bool) (j : ℕ) (js : List ℕ)
    → jit_async_loops ≤ length js
    → (seen (jit_timer_show tdelay true j js false)
        ≡ some (pos 0, j ∷ take jit_async_loops js, some []))
      × (seen (jit_tasklet_show hi true j js false)
          ≡ some (pos 0, j ∷ take jit_async_loops js, some []))
      × (seen (jit_timer_show tdelay true j js true)
          ≡ some (
            erestartsys,
            j ∷ times (runs (jit_timer_fn tdelay) js (timer_start tdelay j)).0,
            some (memory 0 ∷ []),
          ))
unfolding jit_timer_show jit_tasklet_show
jit_show_returns tdelay hi j js enough =
    let timer = timer_ends tdelay j js enough in
    let tasklet = tasklet_ends hi j js enough in
    (
      show_runs_done (jit_timer_fn tdelay) (timer_start tdelay j) j js _ (timer.0, timer.1),
      show_runs_done jit_tasklet_fn (tasklet_start hi j) j js _ (tasklet.0, tasklet.1),
      show_runs_signal (jit_timer_fn tdelay) (timer_start tdelay j) j js,
    )
