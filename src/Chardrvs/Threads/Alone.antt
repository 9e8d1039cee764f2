-- ===== src/Chardrvs/Threads/Alone.antt =====
-- A thread of chardrvs.c that no other one interrupts.
use linux_kernel_ldd.Prelude.{
  if_lem, ℕ, ◌≡◌, refl, Bool, true, false, arith, ap, sym, ◌∙◌, List, [], ◌++◌, append-nil, leb,
}
use mathlib.Core.Path.{subst}
use linux_kernel_ldd.Kernel.Errno.{erestartsys}
use linux_kernel_ldd.Kernel.Kfifo.{Kfifo}
use linux_kernel_ldd.Chardrvs.{
  Dev, Outcome, returned, locked, asleep, write_copy, write_wait, write_fifo, read_copy,
  read_update, read_fifo,
}
use linux_kernel_ldd.Chardrvs.Threads.{
  ask_write, ask_read, give_up_write, locks_write, lock_read, sleep, copy_out, wake_up, unlock_read,
  wakes, unlocks_read, lock_avail, query, set_avail, unlock_avail, sleeps, outside, State, Move,
  moves, Reach, here, next, lock_write, pass, copy_in, unlock_write, interrupt, Mem, Pc, update,
  tests, copies_in, woken,
}

-- Where a write leaves its thread.
abbrev pub rests : List ℕ → ℕ → Outcome → Pc
rests buf count asleep = sleeps buf count
rests buf count locked = locks_write buf count
rests buf count (returned ret) = outside

module _ (k : Kfifo) where
  open k use {Fifo}

  -- Moves of one thread.
  data Moves : Mem k → Pc → Mem k → Pc → Type 0 where
    stop : {m : Mem k} {p : Pc} → Moves m p m p
    go :
        {m m' m'' : Mem k} {p p' p'' : Pc}
        → Move k m p m' p'
        → Moves m' p' m'' p''
        → Moves m p m'' p''

  -- From `s`, threads can lead to this memory, and to these places.
  abbrev pub Leads : State k → Mem k → (ℕ → Pc) → Type 0
  Leads s m pc =
      (pc' : ℕ → Pc) × Reach k s (record { mem = m; pc = pc' }) × ((j : ℕ) → pc' j ≡ pc j)

  here-Leads :
      {m : Mem k} (pc : ℕ → Pc) (i : ℕ)
      → pc i ≡ outside
      → Leads (record { mem = m; pc = pc }) m (update pc i outside)
  here-Leads pc i at = (pc, here, λ j. ground (arith, at))

  Move-Leads :
      {s : State k} {m m' : Mem k} (pc : ℕ → Pc) (i : ℕ) {p p' : Pc}
      → Leads s m (update pc i p)
      → Move k m p m' p'
      → Leads s m' (update pc i p')
  Move-Leads pc i {p} {p'} l mv =
      (update l.0 i p', next l.1 (moves i (l.2 i ∙ ground arith) mv), λ j. ground (arith, l.2 j))

  Moves-Leads :
      {s : State k} (pc : ℕ → Pc) (i : ℕ) {m m' : Mem k} {p p' : Pc}
      → Leads s m (update pc i p)
      → Moves m p m' p'
      → Leads s m' (update pc i p')
  Moves-Leads pc i l stop = l
  Moves-Leads pc i l (go mv ms) = Moves-Leads pc i (Move-Leads pc i l mv) ms

  -- The memory when no thread has `lock`.
  abbrev pub free_mem : Dev Fifo → List ℕ → List ℕ → Mem k
  free_mem d taken given = record { dev = d; lock = false; taken = taken; given = given }

  -- A thread that goes by its moves to the outcome of a write.
  Writes : Mem k → Pc → List ℕ → ℕ → Outcome × List ℕ × Dev Fifo → Type 0
  Writes m p buf count (out, bytes, d) =
      Moves m p (free_mem d (m.taken ++ bytes) m.given) (rests buf count out)

  copy-Writes :
      (d : Dev Fifo) (taken given buf : List ℕ) (count : ℕ)
      → Writes (free_mem d taken given) (copies_in buf count) buf count (write_copy k buf count d)
  unfolding write_copy Writes
  copy-Writes d taken given buf count =
      go copy_in
        (go unlock_write (go (lock_avail refl) (go query (go set_avail (go unlock_avail stop)))))

  -- A write that puts nothing in.
  nothing-Writes :
      {m : Mem k} {p : Pc} (d : Dev Fifo) (taken buf : List ℕ) (count : ℕ) (out : Outcome)
      → Moves m p (free_mem d taken m.given) (rests buf count out)
      → m.taken ≡ taken
      → Writes m p buf count (out, [], d)
  unfolding Writes
  nothing-Writes {m} {p} d taken buf count out ms same =
      subst (λ t. Moves m p (free_mem d t m.given) (rests buf count out))
        (sym (append-nil m.taken ∙ same)) ms

  wait-Writes :
      (signal : Bool) (d : Dev Fifo) (taken given buf : List ℕ) (count : ℕ)
      → Writes
          (free_mem d taken given)
          (tests buf count)
          buf
          count
          (write_wait k signal buf count d)
  unfolding write_wait Writes
  wait-Writes signal d taken given buf count =
      if_lem (Writes _ _ buf count) (leb count d.avail)
        (λ fits. go (pass (ground arith)) (copy-Writes d taken given buf count))
        (λ full.
          if_lem (Writes _ _ buf count) signal
            (λ on.
              nothing-Writes d taken buf count (returned erestartsys)
                (go (sleep (ground arith)) (go interrupt stop)) refl)
            (λ off. nothing-Writes d taken buf count asleep (go (sleep (ground arith)) stop) refl))

  fifo-Writes :
      (signal : Bool) (d : Dev Fifo) (taken given buf : List ℕ) (count : ℕ)
      → Writes (free_mem d taken given) outside buf count (write_fifo k signal buf count d)
  unfolding write_fifo Writes
  fifo-Writes signal d taken given buf count =
      if_lem (Writes _ _ buf count) d.w_f_lock
        (λ held.
          if_lem (Writes _ _ buf count) signal
            (λ on.
              nothing-Writes d taken buf count (returned erestartsys)
                (go (ask_write buf count) (go give_up_write stop)) refl)
            (λ off. nothing-Writes d taken buf count locked (go (ask_write buf count) stop) refl))
        (λ free.
          go (ask_write buf count)
            (go (lock_write free) (wait-Writes signal _ taken given buf count)))

  -- `chardrvs_write_fifo` by a thread that is in no handler, while no thread has `lock` and no other one
  -- takes a step: it can lead to the memory of the function, with the thread at the mutex, asleep or out of
  -- the handler as the function says, and the other threads where they were. What is returned is left out.
  pub write_fifo-alone :
      (signal : Bool) (d : Dev Fifo) (taken given buf : List ℕ) (count : ℕ) (pc : ℕ → Pc) (i : ℕ)
      → pc i ≡ outside
      → let (out, bytes, d') = write_fifo k signal buf count d in
        Leads
          (record { mem = free_mem d taken given; pc = pc })
          (free_mem d' (taken ++ bytes) given)
          (update pc i (rests buf count out))
  unfolding Writes
  write_fifo-alone signal d taken given buf count pc i at =
      Moves-Leads pc i (here-Leads pc i at) (fifo-Writes signal d taken given buf count)

  wake_up-Leads :
      {s : State k} {m : Mem k} (pc : ℕ → Pc) (i : ℕ)
      → Leads s m (update pc i wakes)
      → Leads s m (update (λ j. woken (pc j)) i unlocks_read)
  wake_up-Leads pc i l = (
    update (λ j. woken (l.0 j)) i unlocks_read,
    next l.1 (wake_up i (l.2 i ∙ ground arith)),
    λ j. ground (arith, ap woken (l.2 j)),
  )

  read-Leads :
      (d : Dev Fifo) (taken given : List ℕ) (room count : ℕ) (pc : ℕ → Pc) (i : ℕ)
      → pc i ≡ outside
      → d.r_f_lock ≡ false
      → let (ret, bytes, d') = read_copy k room count (record d { r_f_lock = true }) in
        Leads
          (record { mem = free_mem d taken given; pc = pc })
          (free_mem (read_update k d') taken (given ++ bytes))
          (update (λ j. woken (pc j)) i outside)
  unfolding read_copy read_update
  read-Leads d taken given room count pc i at free =
      let got =
        Moves-Leads pc i (here-Leads pc i at)
          (go (ask_read room count) (go (lock_read free) (go copy_out stop))) in
      Moves-Leads (λ j. woken (pc j)) i (wake_up-Leads pc i got)
        (go unlock_read (go (lock_avail refl) (go query (go set_avail (go unlock_avail stop)))))

  -- `chardrvs_read_fifo` by a thread that no other one interrupts: where no read is under way, it leads to
  -- the memory of the function, with the sleeping writers woken.
  pub read_fifo-alone :
      (signal : Bool) (d : Dev Fifo) (taken given : List ℕ) (room count : ℕ) (pc : ℕ → Pc) (i : ℕ)
      → pc i ≡ outside
      → d.r_f_lock ≡ false
      → let (out, bytes, d') = read_fifo k signal room count d in
        Leads
          (record { mem = free_mem d taken given; pc = pc })
          (free_mem d' taken (given ++ bytes))
          (update (λ j. woken (pc j)) i outside)
  unfolding read_fifo
  read_fifo-alone signal d taken given room count pc i at free =
      if_lem
        (λ (r : Outcome × List ℕ × Dev Fifo).
          Leads (record { mem = free_mem d taken given; pc = pc })
            (free_mem r.2 taken (given ++ r.1)) (update (λ j. woken (pc j)) i outside))
        d.r_f_lock (λ held. ground (arith, held, free))
        (λ f. read-Leads d taken given room count pc i at free)
