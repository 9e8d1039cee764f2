-- ===== src/Jiq/Shared/Awaited.antt =====
-- The work that the sleeping readers of jiq.c wait for is pending.
use linux_kernel_ldd.Prelude.{
  ℕ, ◌≡◌, Bool, true, false, Option, none, some, List, [], ◌∷◌, arith, if_lem, ◌==◌, ◌∙◌,
}
use linux_kernel_ldd.Jiq.{jiq_print}
use linux_kernel_ldd.Jiq.Shared.{
  Work, jiq_work, jiq_delayed_work, jiq_tasklet, jiq_timer, same, schedule, left, System, woken,
  Event, resets, reads, runs, print, run, history, begins, show, step, fops_of, signals,
}

-- The works whose readers `wake_up_interruptible` brings back.
abbrev pub wakes : Work → Bool
wakes jiq_work = true
wakes jiq_delayed_work = true
wakes _ = false

abbrev pub on : Work → Option Work → Bool
on w none = false
on w (some v) = same w v

-- While a reader sleeps on the work, the work is pending.
abbrev pub IsAwaited : Work → System → Type 0
IsAwaited w s = (i : ℕ) → on w (s.sleeps_on i) ≡ true → s.pending w ≡ true

-- No reader sleeps on the work.
abbrev pub IsDone : Work → System → Type 0
IsDone w s = (i : ℕ) → on w (s.sleeps_on i) ≡ false

pub on-woken : (w : Work) (o : Option Work) → wakes w ≡ true → on w (woken o) ≡ false
on-woken w o h = ground arith

schedule_self : (w v : Work) (p : Work → Bool) → same w v ≡ true → schedule v true p w ≡ true
schedule_self w v p h = ground arith

schedule_more : (w v : Work) (p : Work → Bool) → p w ≡ true → schedule v true p w ≡ true
schedule_more w v p h = ground arith

left_lem : (w : Work) (o : Option Work) (p : Work → Bool) → wakes w ≡ true → left o p w ≡ p w
left_lem w o p h = ground arith

pending_same : (w v : Work) (p : Work → Bool) → same w v ≡ true → p w ≡ p v
pending_same w v p e = ground arith

pub unawaited :
    (s : System) (w v : Work) → IsAwaited w s → same w v ≡ true → s.pending v ≡ false → IsDone w s
unawaited s w v h e off i = ground (arith, h i, pending_same w v s.pending e)

module _ (page_size heading delay : ℕ) where
  print_sleeps :
      (j line : ℕ) (s : System) (w : Work) (i : ℕ)
      → wakes w ≡ true
      → on w ((print page_size heading delay j line s).1.sleeps_on i) ≡ true
      → on w (s.sleeps_on i) ≡ true
  unfolding print jiq_print
  print_sleeps j line s w i k h = ground (arith, on-woken w (s.sleeps_on i) k, h)

  pub run-IsAwaited :
      (v : Work) (j line : ℕ) (s : System) (w : Work)
      → wakes w ≡ true
      → s.pending v ≡ true
      → IsAwaited w s
      → IsAwaited w (run page_size heading delay v j line s)
  unfolding run print jiq_print
  run-IsAwaited v j line s w k ready h i a =
      ground (arith, on-woken w (s.sleeps_on i) k, on-woken w (woken (s.sleeps_on i)) k, h i, a)

  begins-IsAwaited :
      (v : Work) (j : ℕ) (s : System) (w : Work)
      → IsAwaited w s
      → IsAwaited w (begins page_size heading delay v j s)
  unfolding begins
  begins-IsAwaited v j s w h i a =
      if_lem (λ o. on w o ≡ true → schedule v true s.pending w ≡ true) (i == s.next)
        (λ e b. schedule_self w v s.pending (ground (arith, b)))
        (λ e b. schedule_more w v s.pending (h i b)) a

  show-IsAwaited :
      (v : Work) (j line : ℕ) (s : System) (w : Work)
      → wakes w ≡ true
      → IsAwaited w s
      → IsAwaited w (show page_size heading delay v j line s)
  unfolding show print jiq_print
  show-IsAwaited jiq_timer j line s w k h i a =
      begins-IsAwaited jiq_timer j s w h i
        (print_sleeps j line (begins page_size heading delay jiq_timer j s) w i k a)
  show-IsAwaited jiq_work j line s w k h i a = begins-IsAwaited jiq_work j s w h i a
  show-IsAwaited jiq_delayed_work j line s w k h i a = begins-IsAwaited jiq_delayed_work j s w h i a
  show-IsAwaited jiq_tasklet j line s w k h i a = begins-IsAwaited jiq_tasklet j s w h i a

  shows-IsAwaited :
      (o : Option Work) (j line : ℕ) (s : System) (w : Work)
      → wakes w ≡ true
      → IsAwaited w s
      → IsAwaited w (elim o [ none ↦ s | some v ↦ show page_size heading delay v j line s ])
  shows-IsAwaited none j line s w k h = h
  shows-IsAwaited (some v) j line s w k h = show-IsAwaited v j line s w k h

  pub step-IsAwaited :
      (s : System) (e : Event) (w : Work)
      → wakes w ≡ true
      → IsAwaited w s
      → IsAwaited w (step page_size heading delay s e)
  unfolding step
  step-IsAwaited s resets w k h i a = h i a
  step-IsAwaited s (reads name j line) w k h i a =
      if_lem (IsAwaited w) (s.starting == 0) (λ z. h)
        (λ z. shows-IsAwaited (fops_of name) j line s w k h) i a
  step-IsAwaited s (runs v j line) w k h i a =
      if_lem (IsAwaited w) (s.pending v) (λ p. run-IsAwaited v j line s w k p h) (λ p. h) i a
  step-IsAwaited s (signals x) w k h i a =
      left_lem w (s.sleeps_on x) s.pending k ∙ h i (ground (arith, a))

  pub history-IsAwaited :
      (s : System) (es : List Event) (w : Work)
      → wakes w ≡ true
      → IsAwaited w s
      → IsAwaited w (history page_size heading delay s es)
  unfolding history
  history-IsAwaited s [] w k h = h
  history-IsAwaited s (e ∷ es) w k h =
      history-IsAwaited (step page_size heading delay s e) es w k (step-IsAwaited s e w k h)
