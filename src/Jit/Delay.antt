-- ===== src/Jit/Delay.antt =====
-- The delays of jit_fn_show against a clock that does not wrap around.
use linux_kernel_ldd.Prelude.{
  ℕ, ◌+◌, ◌%◌, ◌^◌, ◌≤◌, ◌<◌, ◌≡◌, Option, none, some, List, [], ◌∷◌, arith, refl, ltb,
  if◌then◌else◌,
}
use mathlib.Core.Option
use linux_kernel_ldd.Kernel.Replay.{held_after_both}
use linux_kernel_ldd.Jit.{
  jit_init, jit_cleanup, jit_sched, extended, time_before, wait_until, true, negsuc, jit_fn_show,
  waited, false, jit_wait, jit_busy, pos,
}

-- `jiffies` at the true time `t`.
abbrev pub wrapped : ℕ → ℕ
wrapped t = t % 2 ^ 64

abbrev pub wrapped_all : List ℕ → List ℕ
wrapped_all [] = []
wrapped_all (t ∷ ts) = wrapped t ∷ wrapped_all ts

-- The true time after the first that has reached `t1`.
abbrev pub next_after : ℕ → List ℕ → Option ℕ
next_after t1 [] = none
next_after t1 (t ∷ []) = none
next_after t1 (t ∷ u ∷ ts) = if ltb t t1 then next_after t1 (u ∷ ts) else some u

-- The times are `t0` or later, and less than half the clock's range after `t1`.
abbrev pub InRange : ℕ → ℕ → List ℕ → Type 0
InRange t0 t1 [] = Unit
InRange t0 t1 (t ∷ ts) = (t0 ≤ t) × (t < t1 + 2 ^ 63) × InRange t0 t1 ts

time_before-wrapped :
    (t0 delay t : ℕ)
    → delay < 2 ^ 31
    → t0 ≤ t
    → t < t0 + delay + 2 ^ 63
    → time_before (wrapped t) ((wrapped t0 + delay) % 2 ^ 64) ≡ ltb t (t0 + delay)
unfolding time_before
time_before-wrapped t0 delay t small low high = ground arith

abbrev shown : ℕ → Option ℕ → Option (ℕ × ℕ)
shown t0 u = Option.map (λ u. (wrapped t0, wrapped u)) u

wait_until-next_after :
    (t0 delay : ℕ) (ts : List ℕ)
    → delay < 2 ^ 31
    → InRange t0 (t0 + delay) ts
    → waited (wrapped t0) (wait_until ((wrapped t0 + delay) % 2 ^ 64) (wrapped_all ts))
      ≡ shown t0 (next_after (t0 + delay) ts)
unfolding wait_until
wait_until-next_after t0 delay [] small h = refl
wait_until-next_after t0 delay (t ∷ []) small h =
    ground (arith, time_before-wrapped t0 delay t small h.0 h.1)
wait_until-next_after t0 delay (t ∷ u ∷ ts) small h = ground (
  arith,
  time_before-wrapped t0 delay t small h.0 h.1,
  wait_until-next_after t0 delay (u ∷ ts) small h.2,
)

-- For a delay of 0 or more jiffies, at true times that do not go below the first and stay less than
-- half the clock's range above its end, the busy and the scheduling file print the first time and the
-- one read after the first test that finds the delay over, though the clock may wrap around between;
-- and they are still waiting exactly where no such time is among the reads.
pub jit_fn_show-next_after :
    (t0 delay : ℕ) (ts : List ℕ)
    → delay < 2 ^ 31
    → InRange t0 (t0 + delay) ts
    → (jit_fn_show jit_busy (pos delay) (wrapped t0 ∷ wrapped_all ts)
        ≡ Option.map (λ u. (wrapped t0, wrapped u)) (next_after (t0 + delay) ts))
      × (jit_fn_show jit_sched (pos delay) (wrapped t0 ∷ wrapped_all ts)
          ≡ Option.map (λ u. (wrapped t0, wrapped u)) (next_after (t0 + delay) ts))
unfolding jit_fn_show jit_wait
jit_fn_show-next_after t0 delay ts small h =
    (wait_until-next_after t0 delay ts small h, wait_until-next_after t0 delay ts small h)

-- A negative delay of less than half the clock's range is over at the first test.
pub jit_fn_show_negative :
    (j n : ℕ) (js : List ℕ)
    → j < 2 ^ 64
    → n < 2 ^ 31
    → time_before j ((j + extended (negsuc n)) % 2 ^ 64) ≡ false
unfolding time_before
jit_fn_show_negative j n js h small = ground arith

-- The load and the unload are balanced where the kernel makes all the files.
jit_init-jit_cleanup : held_after_both (jit_init (λ name. true)) jit_cleanup ≡ some []
unfolding jit_init jit_cleanup
jit_init-jit_cleanup = refl
