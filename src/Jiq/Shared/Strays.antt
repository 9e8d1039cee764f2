-- ===== src/Jiq/Shared/Strays.antt =====
-- Lines of jiq.c in pages whose readers have returned.
use linux_kernel_ldd.Prelude.{
  ℕ, suc, ◌+◌, ◌-◌, ◌≤◌, ◌≡◌, refl, Bool, true, false, not, ◌&&◌, ◌||◌, Option, none, some, List,
  [], ◌∷◌, ap, ◌∙◌, arith, ltb, ◌==◌, if_lem, put_self,
}
use linux_kernel_ldd.Jiq.{limit, jiq_print, jiqwq}
use linux_kernel_ldd.Jiq.Shared.{
  Work, jiq_work, jiq_delayed_work, jiq_tasklet, jiq_timer, same, System, loaded, is_awake, Event,
  resets, reset, reads, runs, signals, print, begins, show, run, step, history, fops_of,
}

-- A file of which no timer is set.
abbrev pub is_timeless : Option Work → Bool
is_timeless none = false
is_timeless (some v) = not (same v jiq_timer)

-- How many readers are between their store of `len` and the rest of their start after an event.
abbrev pub starting_after : ℕ → Event → ℕ
starting_after starting resets = suc starting
starting_after starting (reads name j line) = starting - 1
starting_after starting (runs v j line) = starting
starting_after starting (signals i) = starting

-- No signal comes, and no reader of `jitimer`, and no work runs between a reader's store of `len` and the
-- rest of its start.
abbrev pub is_calm : ℕ → Event → Bool
is_calm starting resets = true
is_calm starting (reads name j line) = ltb 0 starting && is_timeless (fops_of name)
is_calm starting (runs v j line) = starting == 0
is_calm starting (signals i) = false

abbrev pub all_calm : ℕ → List Event → Bool
all_calm starting [] = true
all_calm starting (e ∷ es) = is_calm starting e && all_calm (starting_after starting e) es

-- No line strayed, no timer is pending, and where a work is pending the reader of the data sleeps, the page
-- is past the limit, or a reader starts.
abbrev is_orderly : ℕ → Work → System → Bool
is_orderly page_size v s =
    not s.stray
    && not (s.pending jiq_timer)
    && (not (s.pending v && is_awake (s.sleeps_on s.m))
        || (ltb (limit page_size) s.client.len || ltb 0 s.starting))

IsOrderly : ℕ → System → Type 0
IsOrderly page_size s = (v : Work) → is_orderly page_size v s ≡ true

module _ (page_size heading delay : ℕ) where
  run-IsOrderly :
      (v : Work) (j line : ℕ) (s : System)
      → s.pending v ≡ true
      → s.starting ≡ 0
      → IsOrderly page_size s
      → IsOrderly page_size (run page_size heading delay v j line s)
  unfolding IsOrderly run print jiq_print
  run-IsOrderly v j line s on none_starts h w = ground (arith, on, none_starts, h w, h v)

  begins-IsOrderly :
      (v : Work) (j : ℕ) (s : System)
      → same v jiq_timer ≡ false
      → IsOrderly page_size s
      → IsOrderly page_size (begins page_size heading delay v j s)
  unfolding IsOrderly begins
  begins-IsOrderly v j s on h w = ground (arith, h w, put_self s.sleeps_on s.next (some v))

  show-IsOrderly :
      (v : Work) (j line : ℕ) (s : System)
      → same v jiq_timer ≡ false
      → IsOrderly page_size s
      → IsOrderly page_size (show page_size heading delay v j line s)
  unfolding show
  show-IsOrderly jiq_work j line s e h = begins-IsOrderly jiq_work j s e h
  show-IsOrderly jiq_delayed_work j line s e h = begins-IsOrderly jiq_delayed_work j s e h
  show-IsOrderly jiq_tasklet j line s e h = begins-IsOrderly jiq_tasklet j s e h
  show-IsOrderly jiq_timer j line s e h = ground (arith, e)

  reset-IsOrderly : (s : System) → IsOrderly page_size s → IsOrderly page_size (reset s)
  unfolding IsOrderly
  reset-IsOrderly s h w = ground (arith, h w)

  shows-IsOrderly :
      (o : Option Work) (j line : ℕ) (s : System)
      → is_timeless o ≡ true
      → IsOrderly page_size s
      → IsOrderly page_size (elim o [ none ↦ s | some v ↦ show page_size heading delay v j line s ])
  shows-IsOrderly none j line s c h = h
  shows-IsOrderly (some v) j line s c h = show-IsOrderly v j line s (ground (arith, c)) h

  starting-run :
      (v : Work) (j line : ℕ) (s : System)
      → (run page_size heading delay v j line s).starting ≡ s.starting
  unfolding run print
  starting-run v j line s = ground arith

  starting-shows :
      (o : Option Work) (j line : ℕ) (s : System)
      → is_timeless o ≡ true
      → (elim o as (λ x. System) [
        | none ↦ s
        | some v ↦ show page_size heading delay v j line s
      ]).starting
        ≡ s.starting - 1
  unfolding show begins print
  starting-shows none j line s c = ground (arith, c)
  starting-shows (some v) j line s c = ground arith

  step-IsOrderly :
      (s : System) (e : Event)
      → is_calm s.starting e ≡ true
      → IsOrderly page_size s
      → IsOrderly page_size (step page_size heading delay s e)
  unfolding step
  step-IsOrderly s resets c h = reset-IsOrderly s h
  step-IsOrderly s (reads name j line) c h =
      if_lem (IsOrderly page_size) (s.starting == 0) (λ z. h)
        (λ z. shows-IsOrderly (fops_of name) j line s (ground (arith, c)) h)
  step-IsOrderly s (runs v j line) c h =
      if_lem (IsOrderly page_size) (s.pending v)
        (λ ready. run-IsOrderly v j line s ready (ground (arith, c)) h) (λ off. h)
  step-IsOrderly s (signals x) c h = absurd (ground (arith, c))

  starting-step :
      (s : System) (e : Event)
      → is_calm s.starting e ≡ true
      → (step page_size heading delay s e).starting ≡ starting_after s.starting e
  unfolding step
  starting-step s resets c = refl
  starting-step s (reads name j line) c =
      if_lem (λ (t : System). t.starting ≡ s.starting - 1) (s.starting == 0)
        (λ z. ground (arith, z)) (λ z. starting-shows (fops_of name) j line s (ground (arith, c)))
  starting-step s (runs v j line) c =
      if_lem (λ (t : System). t.starting ≡ s.starting) (s.pending v)
        (λ ready. starting-run v j line s) (λ off. refl)
  starting-step s (signals x) c = refl

  history-IsOrderly :
      (s : System) (es : List Event)
      → all_calm s.starting es ≡ true
      → IsOrderly page_size s
      → IsOrderly page_size (history page_size heading delay s es)
  unfolding history
  history-IsOrderly s [] c h = h
  history-IsOrderly s (e ∷ es) c h =
      history-IsOrderly (step page_size heading delay s e) es
        (ap (λ n. all_calm n es) (starting-step s e (ground (arith, c))) ∙ ground (arith, c))
        (step-IsOrderly s e (ground (arith, c)) h)

-- Any number of readers of jiqwq, jiqwqdelay and jiqtasklet at once, and any order of their starts and of
-- the runs of the work: where no signal comes, jitimer is not read, and no work runs between a reader's
-- store of `len` and that of `m`, each run being one step, no line goes into the page of a reader that has
-- returned.
pub calm_readers-no_stray :
    (page_size heading delay : ℕ) (events : List Event)
    → all_calm 0 events ≡ true
    → (history page_size heading delay loaded events).stray ≡ false
unfolding IsOrderly
calm_readers-no_stray page_size heading delay events c =
    ground (arith, history-IsOrderly page_size heading delay loaded events c (λ v. refl) jiq_work)

-- Without signals and timers too: where a work is pending when the reader of the data has returned, a
-- further reader sets `len` to 0, and the work runs before this reader has set `m`, it prints into the
-- page of the one that has returned.
pub reset_strays :
    (page_size heading delay : ℕ) (s : System) (v : Work) (j line : ℕ)
    → s.pending v ≡ true
    → s.sleeps_on s.m ≡ none
    → (history page_size heading delay s (resets ∷ runs v j line ∷ [])).stray ≡ true
unfolding history step run print jiq_print
reset_strays page_size heading delay s v j line p gone = ground (arith, p, gone)

-- While the timer of a reader of jitimer is pending, a read of jiqwq begins, the timer runs out and then the
-- work runs, where two headings and a line fit below the limit: the timer's wake-up has brought back the reader
-- of jiqwq with its work still pending, and the work prints into the page of this reader, which has returned.
pub timer_strays :
    (page_size heading delay : ℕ) (s : System) (j line j' line' j'' line'' : ℕ)
    → s.pending jiq_timer ≡ true
    → heading + (heading + line') ≤ limit page_size
    → let after =
        history page_size heading delay s
          (resets ∷ reads jiqwq j line ∷ runs jiq_timer j' line' ∷ runs jiq_work j'' line'' ∷ []) in
      (after.stray ≡ true) × (after.sleeps_on s.next ≡ none)
unfolding history step fops_of show begins run print jiq_print
timer_strays page_size heading delay s j line j' line' j'' line'' p h =
    ground (arith, p, h, put_self s.sleeps_on s.next (some jiq_work), put_self s.page s.next 0)
