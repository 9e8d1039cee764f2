-- ===== src/Jiq/Shared/Returns.antt =====
-- Which of the readers that share the data of jiq.c return.
use linux_kernel_ldd.Prelude.{
  ℕ, ◌+◌, ◌≤◌, ◌<◌, ◌≡◌, refl, Bool, true, false, not, ◌&&◌, Option, List, [], ◌∷◌, arith, ltb,
  if◌then◌else◌, if_lem, ◌∙◌, ◌⊎◌, inl, inr, Bool-cases, ◌||◌,
}
use linux_kernel_ldd.Jiq.{limit, jiq_print}
use linux_kernel_ldd.Jiq.Shared.{
  Work, jiq_work, jiq_delayed_work, same, System, woken, Event, resets, reads, runs, print, run,
  history, step, signals, loaded,
}
use linux_kernel_ldd.Jiq.Shared.Awaited.{
  wakes, on, IsAwaited, IsDone, on-woken, unawaited, run-IsAwaited, step-IsAwaited,
  history-IsAwaited,
}

abbrev pub is_read : Event → Bool
is_read resets = true
is_read (reads name j line) = true
is_read _ = false

abbrev pub has_bytes : Event → Bool
has_bytes (runs v j line) = ltb 0 line
has_bytes _ = true

-- No read begins or goes on, and every line has bytes.
abbrev pub prints_on : List Event → Bool
prints_on [] = true
prints_on (e ∷ es) = (not (is_read e) && has_bytes e) && prints_on es

abbrev pub is_run : Work → Event → Bool
is_run w (runs v j line) = same w v
is_run w _ = false

abbrev pub runs_of : Work → List Event → ℕ
runs_of w [] = 0
runs_of w (e ∷ es) = (if is_run w e then 1 else 0) + runs_of w es

module _ (page_size heading delay : ℕ) where
  -- A run of any work wakes the readers past the limit, and prints below it.
  run_stops :
      (v : Work) (j line : ℕ) (s : System) (w : Work)
      → wakes w ≡ true
      → limit page_size < s.client.len
      → IsDone w (run page_size heading delay v j line s)
  unfolding run print jiq_print
  run_stops v j line s w k h i =
      ground (arith, on-woken w (s.sleeps_on i) k, on-woken w (woken (s.sleeps_on i)) k)

  run_grows :
      (v : Work) (j line : ℕ) (s : System)
      → s.client.len ≤ limit page_size
      → 0 < line
      → s.client.len < (run page_size heading delay v j line s).client.len
  unfolding run print jiq_print
  run_grows v j line s h p = ground arith

  step-IsDone :
      (s : System) (e : Event) (w : Work)
      → wakes w ≡ true
      → is_read e ≡ false
      → IsDone w s
      → IsDone w (step page_size heading delay s e)
  unfolding step run print jiq_print
  step-IsDone s resets w k r h i = ground (arith, r)
  step-IsDone s (reads name j line) w k r h i = ground (arith, r)
  step-IsDone s (runs v j line) w k r h i =
      ground (arith, h i, on-woken w (s.sleeps_on i) k, on-woken w (woken (s.sleeps_on i)) k)
  step-IsDone s (signals x) w k r h i = ground (arith, h i)

  history-IsDone :
      (s : System) (es : List Event) (w : Work)
      → wakes w ≡ true
      → prints_on es ≡ true
      → IsDone w s
      → IsDone w (history page_size heading delay s es)
  unfolding history
  history-IsDone s [] w k p h = h
  history-IsDone s (e ∷ es) w k p h =
      history-IsDone (step page_size heading delay s e) es w k (ground (arith, p))
        (step-IsDone s e w k (ground (arith, p)) h)

  compared : (m n : ℕ) → (m < n) ⊎ (n ≤ m)
  compared m n = ground arith

  -- From a state in which the readers of a work are awaited, where no read begins and the work has more
  -- runs to come than the page has room.
  returns_from :
      (s : System) (es : List Event) (w : Work)
      → wakes w ≡ true
      → prints_on es ≡ true
      → IsAwaited w s
      → 0 < runs_of w es
      → limit page_size + 1 < s.client.len + runs_of w es
      → IsDone w (history page_size heading delay s es)
  unfolding history step
  returns_from s [] w k p h n l = absurd (omega arith)
  returns_from s (resets ∷ es) w k p h n l = absurd (ground (arith, p))
  returns_from s (reads name j line ∷ es) w k p h n l = absurd (ground (arith, p))
  returns_from s (signals x ∷ es) w k p h n l =
      returns_from (step page_size heading delay s (signals x)) es w k p
        (step-IsAwaited page_size heading delay s (signals x) w k h) (omega arith) (omega arith)
  returns_from s (runs v j line ∷ es) w k p h n l =
      let done : System → Type 0 = λ s'. IsDone w (history page_size heading delay s' es) in
      if_lem done (s.pending v)
        (λ ready. elim (compared (limit page_size) s.client.len) [
          | inl past ↦
              history-IsDone (run page_size heading delay v j line s) es w k (ground (arith, p))
                (run_stops v j line s w k past)
          | inr low ↦
              let grows = run_grows v j line s low (ground (arith, p)) in
              returns_from (run page_size heading delay v j line s) es w k (ground (arith, p))
                (run-IsAwaited page_size heading delay v j line s w k ready h)
                (ground (arith, n, l, low)) (ground (arith, n, l, grows))
        ])
        (λ off. elim (Bool-cases (same w v)) [
          | inl e ↦ history-IsDone s es w k (ground (arith, p)) (unawaited s w v h e off)
          | inr e ↦
              returns_from s es w k (ground (arith, p)) h (ground (arith, n, e))
                (ground (arith, l, e))
        ])

abbrev pub is_signal : Event → Bool
is_signal (signals i) = true
is_signal _ = false

abbrev pub has_signal : List Event → Bool
has_signal [] = false
has_signal (e ∷ es) = is_signal e || has_signal es

woken_twice : (o : Option Work) → woken (woken o) ≡ woken o
woken_twice o = ground arith

woken_self : (o : Option Work) → on jiq_work o ≡ false → on jiq_delayed_work o ≡ false → o ≡ woken o
woken_self o h h' = ground (arith, h, h')

module _ (page_size heading delay : ℕ) where
  step-woken :
      (s : System) (e : Event) (i : ℕ)
      → is_read e ≡ false
      → is_signal e ≡ false
      → woken ((step page_size heading delay s e).sleeps_on i) ≡ woken (s.sleeps_on i)
  unfolding step run print jiq_print
  step-woken s resets i r n = ground (arith, r)
  step-woken s (reads name j line) i r n = ground (arith, r)
  step-woken s (runs v j line) i r n =
      ground (arith, woken_twice (s.sleeps_on i), woken_twice (woken (s.sleeps_on i)))
  step-woken s (signals x) i r n = ground (arith, n)

  history-woken :
      (s : System) (es : List Event) (i : ℕ)
      → prints_on es ≡ true
      → has_signal es ≡ false
      → woken ((history page_size heading delay s es).sleeps_on i) ≡ woken (s.sleeps_on i)
  unfolding history
  history-woken s [] i p n = refl
  history-woken s (e ∷ es) i p n =
      history-woken (step page_size heading delay s e) es i (ground (arith, p)) (ground (arith, n))
      ∙ step-woken s e i (ground (arith, p)) (ground (arith, n))

  -- The readers of a work queue return: where no further read begins and the work runs often enough.
  pub readers_return :
      (before after : List Event) (w : Work)
      → wakes w ≡ true
      → prints_on after ≡ true
      → limit page_size + 1 < runs_of w after
      → IsDone w
          (history page_size heading delay (history page_size heading delay loaded before) after)
  readers_return before after w k p n =
      returns_from page_size heading delay (history page_size heading delay loaded before) after w k
        p (history-IsAwaited page_size heading delay loaded before w k (λ i a. ground (arith, a)))
        (omega arith) (omega arith)

-- How the readers end, however many there are and whatever happened before: where no read begins or goes on and
-- no signal comes, and both works of the work queues have run more often than the bytes of the limit and one,
-- each line with a byte, just the readers that slept on these works have returned. Those of the tasklet and
-- of the timer sleep on.
pub readers_settle :
    (page_size heading delay : ℕ) (before after : List Event) (i : ℕ)
    → prints_on after ≡ true
    → has_signal after ≡ false
    → limit page_size + 1 < runs_of jiq_work after
    → limit page_size + 1 < runs_of jiq_delayed_work after
    → let s = history page_size heading delay loaded before in
      (history page_size heading delay s after).sleeps_on i ≡ woken (s.sleeps_on i)
readers_settle page_size heading delay before after i p n h h' =
    let s = history page_size heading delay loaded before in
    woken_self ((history page_size heading delay s after).sleeps_on i)
      (readers_return page_size heading delay before after jiq_work refl p h i)
      (readers_return page_size heading delay before after jiq_delayed_work refl p h' i)
    ∙ history-woken page_size heading delay s after i p n
