-- ===== src/Chardrvs/System.antt =====
-- chardrvs.c over time: the device and the one writer that may sleep in `wait_event_interruptible`,
-- as a sequence of calls and wake-ups drives them.
use linux_kernel_ldd.Prelude.{
  ℕ, ◌≡◌, ◌⊎◌, ◌<◌, refl, Bool, true, false, Option, none, some, ◌≤◌, length, take, List, [], ◌∷◌,
  ◌++◌, arith, append-nil, append_splice,
}
use linux_kernel_ldd.Kernel.Kfifo.{Kfifo}
use linux_kernel_ldd.Chardrvs.{
  Dev, Outcome, returned, locked, asleep, write_wait, write_fifo, read_fifo, open_dev, release_dev,
}
use linux_kernel_ldd.Chardrvs.Write.{IsSound, write_fifo_leaks}

-- What happens to the device. `wake` lets the sleeping writer look at its condition again.
pub data Call : Type 0 where
  writes : Bool → List ℕ → ℕ → Call
  reads : Bool → ℕ → ℕ → Call
  wake : Bool → Call
  opens : Call
  releases : Call

-- The buffer and count of a write that sleeps.
abbrev pub Sleeper : Type 0
Sleeper = Option (List ℕ × ℕ)

module _ (k : Kfifo) where
  open k use {Fifo, contents}

  pub record System : Type 0 where
    pub dev : Dev Fifo
    pub sleeper : Sleeper

  -- The bytes that the FIFO takes over from writers and hands to readers in a step.
  pub record Moved : Type 0 where
    pub next : System
    pub taken : List ℕ
    pub given : List ℕ

  -- The sleeper after a write call that found `s` asleep: the caller itself where it sleeps now.
  abbrev pub sleeper_after : Outcome → List ℕ → ℕ → Sleeper → Sleeper
  sleeper_after asleep buf count s = some (buf, count)
  sleeper_after (returned r) buf count s = s
  sleeper_after locked buf count s = s

  unfoldable pub start_write : Bool → List ℕ → ℕ → System → Moved
  start_write signal buf count s =
      let (out, bytes, d) = write_fifo k signal buf count s.dev in
      record {
        next = record { dev = d; sleeper = sleeper_after out buf count s.sleeper };
        taken = bytes;
        given = [];
      }

  -- The sleeper looks at its condition again, if there is one.
  unfoldable pub wake_up : Bool → Sleeper → Dev Fifo → Moved
  wake_up signal none d = record {
    next = record { dev = d; sleeper = none };
    taken = [];
    given = [];
  }
  wake_up signal (some (buf, count)) d =
      let (out, bytes, d') = write_wait k signal buf count d in
      record {
        next = record { dev = d'; sleeper = sleeper_after out buf count none };
        taken = bytes;
        given = [];
      }

  unfoldable pub start_read : Bool → ℕ → ℕ → System → Moved
  start_read signal room count s =
      let (out, bytes, d) = read_fifo k signal room count s.dev in
      record { next = record { dev = d; sleeper = s.sleeper }; taken = []; given = bytes }

  abbrev pub only_dev : Dev Fifo → System → Moved
  only_dev d s = record { next = record { dev = d; sleeper = s.sleeper }; taken = []; given = [] }

  unfoldable pub step : System → Call → Moved
  unfolding start_write wake_up start_read
  step s (writes signal buf count) = start_write signal buf count s
  step s (reads signal room count) = start_read signal room count s
  step s (wake signal) = wake_up signal s.sleeper s.dev
  step s opens = only_dev (open_dev s.dev).1 s
  step s releases = only_dev (release_dev s.dev).1 s

  -- A history of calls, with all the bytes taken and all the bytes given.
  unfoldable pub run : System → List Call → Moved
  run s [] = record { next = s; taken = []; given = [] }
  run s (c ∷ cs) =
      let m = step s c in
      let rest = run m.next cs in
      record { next = rest.next; taken = m.taken ++ rest.taken; given = m.given ++ rest.given }

  -- What holds between two calls: the cached room is sound, and a sleeper holds the write mutex.
  pub record IsValid (s : System) : Type 0 where
    pub sound : IsSound k s.dev
    pub owned : (s.sleeper ≡ none) ⊎ (s.dev.w_f_lock ≡ true)

  wake_up-IsValid :
      (signal : Bool) (w : Sleeper) (d : Dev Fifo)
      → IsSound k d
      → (w ≡ none) ⊎ (d.w_f_lock ≡ true)
      → IsValid (wake_up signal w d).next
  unfolding wake_up write_wait
  wake_up-IsValid signal none d s o = ground arith
  wake_up-IsValid signal (some (buf, count)) d s o = ground (arith, o)

  pub step-IsValid : (s : System) (c : Call) → IsValid s → IsValid (step s c).next
  unfolding step start_write start_read write_fifo read_fifo open_dev release_dev
  step-IsValid s (writes signal buf count) v = ground (arith, v.owned)
  step-IsValid s (reads signal room count) v = ground (arith, v.owned)
  step-IsValid s (wake signal) v = wake_up-IsValid signal s.sleeper s.dev v.sound v.owned
  step-IsValid s opens v = ground (arith, v.owned)
  step-IsValid s releases v = ground (arith, v.owned)

  -- From a state where it holds, every history of calls and wake-ups keeps the cached room within the
  -- true room, and the write mutex held while a writer sleeps.
  pub run-IsValid : (s : System) (cs : List Call) → IsValid s → IsValid (run s cs).next
  unfolding run
  run-IsValid s [] v = v
  run-IsValid s (c ∷ cs) v = run-IsValid (step s c).next cs (step-IsValid s c v)

  wake_up_conserves :
      (signal : Bool) (w : Sleeper) (d : Dev Fifo)
      → let m = wake_up signal w d in
        contents d.myfifo ++ m.taken ≡ m.given ++ contents m.next.dev.myfifo
  unfolding wake_up write_wait
  wake_up_conserves signal none d = append-nil (contents d.myfifo)
  wake_up_conserves signal (some (buf, count)) d =
      ground (arith, k.from_user_contents d.myfifo buf count, append-nil (contents d.myfifo))

  step_conserves :
      (s : System) (c : Call)
      → let m = step s c in contents s.dev.myfifo ++ m.taken ≡ m.given ++ contents m.next.dev.myfifo
  unfolding step start_write start_read write_fifo read_fifo open_dev release_dev
  step_conserves s (writes signal buf count) =
      ground
        (arith, k.from_user_contents s.dev.myfifo buf count, append-nil (contents s.dev.myfifo))
  step_conserves s (reads signal room count) =
      ground (arith, k.to_user_contents s.dev.myfifo room count, append-nil (contents s.dev.myfifo))
  step_conserves s (wake signal) = wake_up_conserves signal s.sleeper s.dev
  step_conserves s opens = ground (arith, append-nil (contents s.dev.myfifo))
  step_conserves s releases = ground (arith, append-nil (contents s.dev.myfifo))

  -- Over every history the bytes come out in the order in which they went in, none lost and none made
  -- up: what was in the FIFO and what was taken is what was given and what is in it now.
  pub run_conserves :
      (s : System) (cs : List Call)
      → let m = run s cs in contents s.dev.myfifo ++ m.taken ≡ m.given ++ contents m.next.dev.myfifo
  unfolding run
  run_conserves s [] = append-nil (contents s.dev.myfifo)
  run_conserves s (c ∷ cs) =
      let m = step s c in
      let rest = run m.next cs in
      append_splice (contents s.dev.myfifo) m.taken m.given (contents m.next.dev.myfifo) rest.taken
        rest.given (contents rest.next.dev.myfifo) (step_conserves s c) (run_conserves m.next cs)

  -- The write mutex is held and no writer sleeps that would give it back.
  abbrev pub Leaked : System → Type 0
  Leaked s = (s.dev.w_f_lock ≡ true) × (s.sleeper ≡ none)

  step-Leaked :
      (s : System) (c : Call) → Leaked s → Leaked (step s c).next × ((step s c).taken ≡ [])
  unfolding step start_write start_read write_fifo read_fifo open_dev release_dev wake_up
  step-Leaked s (writes signal buf count) h = ground arith
  step-Leaked s (reads signal room count) h = ground arith
  step-Leaked s (wake signal) h = ground arith
  step-Leaked s opens h = ground arith
  step-Leaked s releases h = ground arith

  -- Once leaked, always leaked: no later history of calls brings a byte into the FIFO.
  pub run-Leaked :
      (s : System) (cs : List Call) → Leaked s → ((run s cs).taken ≡ []) × Leaked (run s cs).next
  unfolding run
  run-Leaked s [] h = (refl, h)
  run-Leaked s (c ∷ cs) h =
      let step' = step-Leaked s c h in
      let rest = run-Leaked (step s c).next cs step'.0 in (rw (step'.1, rest.0), rest.1)

  -- Where the write mutex is free and no writer sleeps, a writer that has to wait for room and is
  -- interrupted by a signal ends all writing: whatever calls follow, of whomever, no byte enters the
  -- FIFO again.
  pub interrupted-run :
      (buf : List ℕ) (count : ℕ) (s : System) (cs : List Call)
      → s.dev.w_f_lock ≡ false
      → s.sleeper ≡ none
      → s.dev.avail < count
      → (run s (writes true buf count ∷ cs)).taken ≡ []
  unfolding run step start_write
  interrupted-run buf count s cs free alone full =
      rw (write_fifo_leaks k buf count s.dev free full) (run-Leaked _ cs (refl, alone)).0

  -- In a valid state, the writer that sleeps goes ahead when it looks again with enough room: where
  -- its buffer is readable all of it is taken, it sleeps no more and gives the mutex back.
  pub wake_completes :
      (signal : Bool) (buf : List ℕ) (count : ℕ) (s : System)
      → IsValid s
      → s.sleeper ≡ some (buf, count)
      → count ≤ s.dev.avail
      → count ≤ length buf
      → let m = step s (wake signal) in
        (m.taken ≡ take count buf) × (m.next.sleeper ≡ none) × (m.next.dev.w_f_lock ≡ false)
  unfolding step wake_up write_wait
  wake_completes signal buf count s v asleeper fits readable =
      rw asleeper (ground (arith, v.sound, k.from_user_ok s.dev.myfifo buf count))
