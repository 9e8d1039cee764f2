-- ===== src/Jiq/Shared/Pages.antt =====
-- The pages of the readers that share the data of jiq.c.
use linux_kernel_ldd.Prelude.{
  ℕ, ◌<◌, ◌≡◌, refl, Bool, true, ◌&&◌, Option, none, some, List, [], ◌∷◌, arith, ltb, leb, ◌==◌,
  if_lem,
}
use linux_kernel_ldd.Jiq.{jiq_print}
use linux_kernel_ldd.Jiq.Shared.{
  Work, System, loaded, Event, resets, reads, runs, signals, print, begins, show, run, step,
  history, fops_of,
}

-- The data lead to a reader after `i`, whose page has `bytes`, and to none that is still to come.
abbrev is_past : ℕ → ℕ → System → Bool
is_past i bytes s = (ltb i s.m && ltb s.m s.next) && s.page i == bytes

-- The data lead to no reader that is still to come.
abbrev is_counted : System → Bool
is_counted s = leb s.m s.next

module _ (page_size heading delay : ℕ) where
  run_past :
      (i bytes : ℕ) (v : Work) (j line : ℕ) (s : System)
      → is_past i bytes s ≡ true
      → is_past i bytes (run page_size heading delay v j line s) ≡ true
  unfolding run print jiq_print
  run_past i bytes v j line s h = ground (arith, h)

  show_past :
      (i bytes : ℕ) (v : Work) (j line : ℕ) (s : System)
      → is_past i bytes s ≡ true
      → is_past i bytes (show page_size heading delay v j line s) ≡ true
  unfolding show begins print jiq_print
  show_past i bytes v j line s h = ground (arith, h)

  shows_past :
      (i bytes : ℕ) (o : Option Work) (j line : ℕ) (s : System)
      → is_past i bytes s ≡ true
      → is_past i bytes (elim o [ none ↦ s | some v ↦ show page_size heading delay v j line s ])
        ≡ true
  shows_past i bytes none j line s h = h
  shows_past i bytes (some v) j line s h = show_past i bytes v j line s h

  step_past :
      (i bytes : ℕ) (s : System) (e : Event)
      → is_past i bytes s ≡ true
      → is_past i bytes (step page_size heading delay s e) ≡ true
  unfolding step
  step_past i bytes s resets h = h
  step_past i bytes s (reads name j line) h =
      if_lem (λ s'. is_past i bytes s' ≡ true) (s.starting == 0) (λ z. h)
        (λ z. shows_past i bytes (fops_of name) j line s h)
  step_past i bytes s (runs v j line) h =
      if_lem (λ s'. is_past i bytes s' ≡ true) (s.pending v) (λ on. run_past i bytes v j line s h)
        (λ off. h)
  step_past i bytes s (signals x) h = h

  history_past :
      (i bytes : ℕ) (s : System) (es : List Event)
      → is_past i bytes s ≡ true
      → is_past i bytes (history page_size heading delay s es) ≡ true
  unfolding history
  history_past i bytes s [] h = h
  history_past i bytes s (e ∷ es) h =
      history_past i bytes (step page_size heading delay s e) es (step_past i bytes s e h)

  step_counted :
      (s : System) (e : Event)
      → is_counted s ≡ true
      → is_counted (step page_size heading delay s e) ≡ true
  unfolding step fops_of show begins run print jiq_print
  step_counted s e h = ground (arith, h)

  history_counted :
      (s : System) (es : List Event)
      → is_counted s ≡ true
      → is_counted (history page_size heading delay s es) ≡ true
  unfolding history
  history_counted s [] h = h
  history_counted s (e ∷ es) h =
      history_counted (step page_size heading delay s e) es (step_counted s e h)

  show_takes :
      (i : ℕ) (v : Work) (j line : ℕ) (s : System)
      → is_counted s ≡ true
      → i < s.next
      → is_past i (s.page i) (show page_size heading delay v j line s) ≡ true
  unfolding show begins print jiq_print
  show_takes i v j line s c h = ground (arith, c, h)

  shows_takes :
      (i : ℕ) (o : Option Work) (v : Work) (j line : ℕ) (s : System)
      → o ≡ some v
      → is_counted s ≡ true
      → i < s.next
      → is_past i
          (s.page i)
          (elim o [ none ↦ s | some w ↦ show page_size heading delay w j line s ])
        ≡ true
  shows_takes i none v j line s e c h = ground (arith, e)
  shows_takes i (some w) v j line s e c h = show_takes i w j line s c h

-- Once a further reader of one of the files, which has set `len`, goes on and sets `m`, after any history, the
-- page of every earlier reader stays as it is whatever happens then: no line goes into it any more, although
-- its reader may sleep on.
pub page_taken_over :
    (page_size heading delay : ℕ) (before after : List Event) (name j line : ℕ) (w : Work) (i : ℕ)
    → fops_of name ≡ some w
    → 0 < (history page_size heading delay loaded before).starting
    → i < (history page_size heading delay loaded before).next
    → let s = history page_size heading delay loaded before in
      (history page_size heading delay s (reads name j line ∷ after)).page i ≡ s.page i
unfolding history step
page_taken_over page_size heading delay before after name j line w i e begun h =
    let s = history page_size heading delay loaded before in
    let s' = step page_size heading delay s (reads name j line) in
    let takes =
      if_lem (λ t. is_past i (s.page i) t ≡ true) (s.starting == 0)
        (λ z. absurd (ground (arith, begun, z)))
        (λ z.
          shows_takes page_size heading delay i (fops_of name) w j line s e
            (history_counted page_size heading delay loaded before refl) h) in
    let past = history_past page_size heading delay i (s.page i) s' after takes in
    ground (arith, past)
