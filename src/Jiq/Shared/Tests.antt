-- ===== src/Jiq/Shared/Tests.antt =====
-- Examples for the readers that share the data of jiq.c: a page of 200 bytes, which has a limit of 72, a
-- heading of 42 bytes and lines of 40.
use linux_kernel_ldd.Prelude.{
  zero, suc, ℕ, ◌≡◌, refl, true, false, some, none, List, [], ◌∷◌, arith, ◌<◌,
}
use linux_kernel_ldd.Jit.{jitimer}
use linux_kernel_ldd.Jiq.{jiq_print, jiqwq, jiqwqdelay, jiqtasklet}
use linux_kernel_ldd.Jiq.Shared.{
  jiq_work, jiq_delayed_work, jiq_tasklet, jiq_timer, System, loaded, Event, resets, reads, runs,
  signals, print, begins, show, run, step, history, fops_of, suc, woken,
}
use linux_kernel_ldd.Jiq.Shared.Returns.{readers_settle}
use linux_kernel_ldd.Jiq.Shared.Strays.{calm_readers-no_stray, reset_strays, timer_strays}
use linux_kernel_ldd.Jiq.Shared.Pages.{page_taken_over}

abbrev seen : List Event → System
seen events = history 200 42 1 loaded events

-- Three readers and the runs of two works, to the end.
abbrev three : List Event
three =
    resets
    ∷ reads jiqwq 0 0
    ∷ runs jiq_work 1 40
    ∷ resets
    ∷ reads jiqwqdelay 2 0
    ∷ runs jiq_work 3 40
    ∷ resets
    ∷ reads jiqtasklet 4 0
    ∷ runs jiq_delayed_work 5 40
    ∷ runs jiq_work 6 40
    ∷ []

-- Only the reader of the tasklet still sleeps; the last one has all lines since it came.
three_sleep :
    ((seen three).sleeps_on 0 ≡ none)
    × ((seen three).sleeps_on 1 ≡ none)
    × ((seen three).sleeps_on 2 ≡ some jiq_tasklet)
    × ((seen three).page 2 ≡ 82)
unfolding history step fops_of show begins run print jiq_print
three_sleep = (refl, refl, refl, refl)

-- Two readers of jitimer within its second: the pending timer is set up again.
timer_twice :
    (seen (resets ∷ resets ∷ reads jitimer 0 40 ∷ reads jitimer 1 40 ∷ [])).clobbered ≡ true
unfolding history step fops_of show begins run print jiq_print
timer_twice = refl

calm_readers-no_stray_example : (seen three).stray ≡ false
unfolding fops_of
calm_readers-no_stray_example = calm_readers-no_stray 200 42 1 three refl

-- Readers of all four files, with a signal; and seventy-four runs of each of three works.
abbrev mixed : List Event
mixed =
    resets
    ∷ resets
    ∷ reads jiqwq 0 0
    ∷ reads jitimer 0 40
    ∷ signals 1
    ∷ resets
    ∷ reads jiqwqdelay 1 0
    ∷ resets
    ∷ reads jiqtasklet 2 0
    ∷ []

abbrev rounds : ℕ → List Event
rounds zero = []
rounds (suc n) = runs jiq_work 5 40 ∷ runs jiq_delayed_work 6 40 ∷ runs jiq_tasklet 7 40 ∷ rounds n

readers_settle_example :
    (history 200 42 1 (seen mixed) (rounds 74)).sleeps_on 2 ≡ woken ((seen mixed).sleeps_on 2)
readers_settle_example =
    readers_settle 200 42 1 mixed (rounds 74) 2 refl refl (omega arith) (omega arith)

abbrev timed : System
timed = history 300 42 1 loaded (resets ∷ reads jitimer 0 10 ∷ [])

timed_pending : timed.pending jiq_timer ≡ true
unfolding history step fops_of show begins run print jiq_print
timed_pending = refl

timer_strays_example :
    let after =
      history 300 42 1 timed
        (resets ∷ reads jiqwq 1 0 ∷ runs jiq_timer 2 20 ∷ runs jiq_work 3 20 ∷ []) in
    (after.stray ≡ true) × (after.sleeps_on timed.next ≡ none)
timer_strays_example = timer_strays 300 42 1 timed 1 0 2 20 3 20 timed_pending (omega arith)

-- Readers of jiqwq and jiqwqdelay, whom the work of the first one wakes at the end of the page. The
-- other work is still pending then.
abbrev two : List Event
two =
    resets
    ∷ reads jiqwq 0 0
    ∷ resets
    ∷ reads jiqwqdelay 1 0
    ∷ runs jiq_work 2 40
    ∷ runs jiq_work 3 40
    ∷ []

two_returned :
    ((seen two).pending jiq_delayed_work ≡ true) × ((seen two).sleeps_on (seen two).m ≡ none)
unfolding history step fops_of show begins run print jiq_print
two_returned = (refl, refl)

reset_strays_example :
    (history 200 42 1 (seen two) (resets ∷ runs jiq_delayed_work 4 40 ∷ [])).stray ≡ true
reset_strays_example =
    reset_strays 200 42 1 (seen two) jiq_delayed_work 4 40 two_returned.0 two_returned.1

abbrev first : List Event
first = resets ∷ reads jiqwq 0 0 ∷ resets ∷ runs jiq_work 1 20 ∷ []

first_counted : 0 < (seen first).next
unfolding history step fops_of show begins run print jiq_print
first_counted = omega arith

first_begun : 0 < (seen first).starting
unfolding history step fops_of show begins run print jiq_print
first_begun = omega arith

delayed_table : fops_of jiqwqdelay ≡ some jiq_delayed_work
unfolding fops_of
delayed_table = refl

page_taken_over_example :
    (history 200 42 1 (seen first) (reads jiqwqdelay 2 0 ∷ runs jiq_work 3 20 ∷ [])).page 0
    ≡ (seen first).page 0
page_taken_over_example =
    page_taken_over 200 42 1 first (runs jiq_work 3 20 ∷ []) jiqwqdelay 2 0 jiq_delayed_work 0
      delayed_table first_begun first_counted
