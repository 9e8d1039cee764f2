-- ===== src/Chardrvs/Threads/Progress.antt =====
-- What threads in chardrvs.c can still do.
use linux_kernel_ldd.Prelude.{
  ℕ, ◌≡◌, refl, sym, ap, ◌∙◌, ◌⊎◌, inl, inr, Bool, true, false, List, arith, Bool-cases, leb,
}
use mathlib.Core.Path.{subst}
use linux_kernel_ldd.Kernel.Kfifo.{Kfifo}
use linux_kernel_ldd.Chardrvs.{Dev}
use linux_kernel_ldd.Chardrvs.Threads.{
  Pc, outside, tests, sleeps, copies_in, unlocks_write, copies_out, wakes, unlocks_read,
  locks_write, locks_read, locks_avail, queries, sets_avail, unlocks_avail, in_write, in_read,
  in_update, Mem, Move, State, Reach, at_rest, pass, sleep, copy_in, unlock_write, copy_out,
  unlock_read, lock_avail, query, set_avail, unlock_avail, lock_write, lock_read,
}
use linux_kernel_ldd.Chardrvs.Threads.Owners.{
  Owned, free, owner, Owners, Reach-Owners, uninterrupted, is_signal,
}

-- In a handler and not asleep; a thread that waits for a mutex is in its handler.
abbrev pub busy : Pc → Bool
busy outside = false
busy (sleeps buf count) = false
busy _ = true

abbrev pub asleep : Pc → Bool
asleep (sleeps buf count) = true
asleep _ = false

abbrev pub waits_write : Pc → Bool
waits_write (locks_write buf count) = true
waits_write _ = false

module _ (k : Kfifo) where
  -- A thread that is in a handler and not asleep can take its next step, the wake-up or a move that is no
  -- signal.
  abbrev pub Steps : State k → Type 0
  Steps s =
      (j : ℕ) × (busy (s.pc j) ≡ true)
      × ((s.pc j ≡ wakes)
          ⊎ ((m : Mem k) × (p : Pc) × (mv : Move k s.mem (s.pc j) m p) × (is_signal k mv ≡ false)))

  move-Steps :
      (s : State k) (i : ℕ) {m : Mem k} {p p' : Pc}
      → s.pc i ≡ p
      → busy p ≡ true
      → (mv : Move k s.mem p m p') → is_signal k mv ≡ false
      → Steps s
  move-Steps s i {m} {p} {p'} at h mv own =
      let (mv', own') =
        subst (λ q. (mv' : Move k s.mem q m p') × (is_signal k mv' ≡ false)) (sym at) (mv, own) in
      (i, ap busy at ∙ h, inr (m, p', mv', own'))

  -- Threads past a lock can go on, but for a writer that sleeps.
  in_update-Steps : (s : State k) (i : ℕ) (p : Pc) → s.pc i ≡ p → in_update p ≡ true → Steps s
  in_update-Steps s i queries at h = move-Steps s i at refl query refl
  in_update-Steps s i (sets_avail n) at h = move-Steps s i at refl set_avail refl
  in_update-Steps s i unlocks_avail at h = move-Steps s i at refl unlock_avail refl
  in_update-Steps s i outside at h = absurd (ground (arith, h))
  in_update-Steps s i _ at h = absurd (ground (arith, h))

  in_read-Steps : (s : State k) (i : ℕ) (p : Pc) → s.pc i ≡ p → in_read p ≡ true → Steps s
  in_read-Steps s i (copies_out room count) at h = move-Steps s i at refl copy_out refl
  in_read-Steps s i wakes at h = (i, ap busy at, inl at)
  in_read-Steps s i unlocks_read at h = move-Steps s i at refl unlock_read refl
  in_read-Steps s i outside at h = absurd (ground (arith, h))
  in_read-Steps s i _ at h = absurd (ground (arith, h))

  tests-Steps :
      (s : State k) (i : ℕ) (buf : List ℕ) (count : ℕ) → s.pc i ≡ tests buf count → Steps s
  tests-Steps s i buf count at = elim (Bool-cases (leb count s.mem.dev.avail)) [
    | inl fits ↦ move-Steps s i at refl (pass (ground arith)) refl
    | inr full ↦ move-Steps s i at refl (sleep (ground arith)) refl
  ]

  -- A writer sleeps.
  abbrev pub Sleeps : State k → Type 0
  Sleeps s = (j : ℕ) × (asleep (s.pc j) ≡ true)

  in_write-Steps :
      (s : State k) (i : ℕ) (p : Pc) → s.pc i ≡ p → in_write p ≡ true → Steps s ⊎ Sleeps s
  in_write-Steps s i (tests buf count) at h = inl (tests-Steps s i buf count at)
  in_write-Steps s i (sleeps buf count) at h = inr (i, ap asleep at)
  in_write-Steps s i (copies_in buf count) at h = inl (move-Steps s i at refl copy_in refl)
  in_write-Steps s i unlocks_write at h = inl (move-Steps s i at refl unlock_write refl)
  in_write-Steps s i outside at h = absurd (ground (arith, h))
  in_write-Steps s i _ at h = absurd (ground (arith, h))

  locks_avail-Steps :
      (s : State k) (i : ℕ) → s.pc i ≡ locks_avail → Owned in_update s.mem.lock s.pc → Steps s
  locks_avail-Steps s i at (free e) = move-Steps s i at refl (lock_avail e) refl
  locks_avail-Steps s i at (owner j h) = in_update-Steps s j (s.pc j) refl h

  locks_read-Steps :
      (s : State k) (i : ℕ) (room count : ℕ)
      → s.pc i ≡ locks_read room count
      → Owned in_read s.mem.dev.r_f_lock s.pc
      → Steps s
  locks_read-Steps s i room count at (free e) = move-Steps s i at refl (lock_read e) refl
  locks_read-Steps s i room count at (owner j h) = in_read-Steps s j (s.pc j) refl h

  locks_write-Steps :
      (s : State k) (i : ℕ) (buf : List ℕ) (count : ℕ)
      → s.pc i ≡ locks_write buf count
      → Owned in_write s.mem.dev.w_f_lock s.pc
      → Steps s ⊎ Sleeps s
  locks_write-Steps s i buf count at (free e) = inl (move-Steps s i at refl (lock_write e) refl)
  locks_write-Steps s i buf count at (owner j h) = in_write-Steps s j (s.pc j) refl h

  -- What holds a thread up: nothing, or, where it waits for `w_f_lock`, a writer that sleeps.
  abbrev pub Goes : State k → Pc → Type 0
  Goes s p = Steps s ⊎ ((waits_write p ≡ true) × Sleeps s)

  waiting-Goes : {s : State k} (p : Pc) → waits_write p ≡ true → Steps s ⊎ Sleeps s → Goes s p
  waiting-Goes p w (inl steps) = inl steps
  waiting-Goes p w (inr sleeper) = inr (w, sleeper)

  busy-Goes : (s : State k) (i : ℕ) (p : Pc) → Owners k s → s.pc i ≡ p → busy p ≡ true → Goes s p
  busy-Goes s i (locks_write buf count) o at h =
      waiting-Goes (locks_write buf count) refl (locks_write-Steps s i buf count at o.write)
  busy-Goes s i (tests buf count) o at h = inl (tests-Steps s i buf count at)
  busy-Goes s i (copies_in buf count) o at h = inl (move-Steps s i at refl copy_in refl)
  busy-Goes s i unlocks_write o at h = inl (move-Steps s i at refl unlock_write refl)
  busy-Goes s i (locks_read room count) o at h = inl (locks_read-Steps s i room count at o.read)
  busy-Goes s i (copies_out room count) o at h = inl (move-Steps s i at refl copy_out refl)
  busy-Goes s i wakes o at h = inl (i, ap busy at, inl at)
  busy-Goes s i unlocks_read o at h = inl (move-Steps s i at refl unlock_read refl)
  busy-Goes s i locks_avail o at h = inl (locks_avail-Steps s i at o.update)
  busy-Goes s i queries o at h = inl (move-Steps s i at refl query refl)
  busy-Goes s i (sets_avail n) o at h = inl (move-Steps s i at refl set_avail refl)
  busy-Goes s i unlocks_avail o at h = inl (move-Steps s i at refl unlock_avail refl)
  busy-Goes s i outside o at h = absurd (ground (arith, h))
  busy-Goes s i (sleeps buf count) o at h = absurd (ground (arith, h))

  -- Whatever threads do from a device at rest with both mutexes free, in any order, where no signal ends a
  -- sleep: while a thread is in a handler and not asleep, a wait for a mutex included, one of these threads
  -- can take its next step without a signal, or the thread waits for `w_f_lock` and a writer sleeps.
  pub never_deadlocks :
      (d : Dev k.Fifo) {s : State k} (i : ℕ)
      → d.w_f_lock ≡ false
      → d.r_f_lock ≡ false
      → (r : Reach k (at_rest k d) s) → uninterrupted k r ≡ true
      → busy (s.pc i) ≡ true
      → Goes s (s.pc i)
  never_deadlocks d {s} i free_w free_r r u h =
      busy-Goes s i (s.pc i) (Reach-Owners k d free_w free_r r u) refl h
