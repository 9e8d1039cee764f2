-- ===== src/Jit/Loops.antt =====
-- The runs of the timer and the tasklet of jit.c, and the memory of their readers.
use linux_kernel_ldd.Prelude.{
  ℕ, zero, suc, ◌+◌, ◌^◌, ◌≤◌, ◌<◌, ◌≡◌, refl, Bool, true, false, some, List, [], ◌∷◌, arith, ltb,
  length, take,
}
use linux_kernel_ldd.Kernel.Errno.{erestartsys}
use linux_kernel_ldd.Kernel.Replay.{memory, held_after}
use linux_kernel_ldd.Jit.{
  JitData, Line, jit_async_loops, jit_timer_fn, jit_tasklet_fn, timer_start, tasklet_start, runs,
  show_memory,
}

-- The times of lines.
unfoldable pub times : List Line → List ℕ
times [] = []
times (l ∷ ls) = l.0 ∷ times ls

-- A run that prints its time, counts down, and goes on as long as the count is not 0.
abbrev pub CountsDown : (ℕ → JitData → Line × JitData) → Type 0
CountsDown fn =
    (j : ℕ) (d : JitData)
    → 0 < d.loops
    → d.loops < 2 ^ 31
    → let (line, d') = fn j d in
      (line.0 ≡ j) × (d'.loops + 1 ≡ d.loops) × (d'.scheduled ≡ ltb 1 d.loops)

jit_timer_fn-CountsDown : (tdelay : ℕ) → CountsDown (jit_timer_fn tdelay)
unfolding jit_timer_fn
jit_timer_fn-CountsDown tdelay j d some_loops small = ground arith

jit_tasklet_fn-CountsDown : CountsDown jit_tasklet_fn
unfolding jit_tasklet_fn
jit_tasklet_fn-CountsDown j d some_loops small = ground arith

module _ (fn : ℕ → JitData → Line × JitData) (counts : CountsDown fn) where
  runs_idle : (js : List ℕ) (d : JitData) → d.scheduled ≡ false → runs fn js d ≡ ([], d)
  unfolding runs
  runs_idle [] d h = refl
  runs_idle (j ∷ js) d h = rw h refl

  runs_end :
      (n : ℕ) (js : List ℕ) (d : JitData)
      → d.loops ≡ suc n
      → suc n < 2 ^ 31
      → d.scheduled ≡ true
      → suc n ≤ length js
      → let (lines, d') = runs fn js d in
        (times lines ≡ take (suc n) js) × (d'.loops ≡ 0) × (d'.scheduled ≡ false)
  unfolding runs times
  runs_end n [] d l small on enough = absurd (omega arith)
  runs_end zero (j ∷ js) d l small on enough =
      ground (arith, counts j d (omega arith) (omega arith), runs_idle js (fn j d).1)
  runs_end (suc n) (j ∷ js) d l small on enough =
      ground (arith, counts j d (omega arith) (omega arith), runs_end n js (fn j d).1)

-- The timer of `jit_timer_show` goes off five times, prints a line at each of them, and then stays
-- off with the reader's condition true; so it does whatever its delay is and however late its runs are.
pub timer_ends :
    (tdelay j : ℕ) (js : List ℕ)
    → jit_async_loops ≤ length js
    → let (lines, d) = runs (jit_timer_fn tdelay) js (timer_start tdelay j) in
      (times lines ≡ take jit_async_loops js) × (d.loops ≡ 0) × (d.scheduled ≡ false)
unfolding timer_start
timer_ends tdelay j js enough =
    runs_end (jit_timer_fn tdelay) (jit_timer_fn-CountsDown tdelay) 4 js (timer_start tdelay j) refl
      (omega arith) refl enough

-- The same for the tasklet of `jit_tasklet_show`.
pub tasklet_ends :
    (hi : Bool) (j : ℕ) (js : List ℕ)
    → jit_async_loops ≤ length js
    → let (lines, d) = runs jit_tasklet_fn js (tasklet_start hi j) in
      (times lines ≡ take jit_async_loops js) × (d.loops ≡ 0) × (d.scheduled ≡ false)
unfolding tasklet_start
tasklet_ends hi j js enough =
    runs_end jit_tasklet_fn jit_tasklet_fn-CountsDown 4 js (tasklet_start hi j) refl (omega arith)
      refl enough

-- A reader that a signal is pending for keeps the memory, which nothing gives back.
pub show_memory_leaks :
    ((show_memory true true).0 ≡ erestartsys)
    × (held_after (show_memory true true) ≡ some (memory 0 ∷ []))
unfolding show_memory
show_memory_leaks = (refl, refl)
