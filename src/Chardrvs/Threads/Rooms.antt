-- ===== src/Chardrvs/Threads/Rooms.antt =====
-- The room that chardrvs.c's `avail` promises, while threads run its handlers in any order.
use linux_kernel_ldd.Prelude.{
  ℕ, ◌≡◌, refl, Bool, true, false, arith, sym, ap, ◌∙◌, ◌||◌, ◌==◌, if◌then◌else◌,
}
use linux_kernel_ldd.Kernel.Kfifo.{Kfifo}
use linux_kernel_ldd.Chardrvs.{Dev, poll_dev, pollout}
use linux_kernel_ldd.Chardrvs.Threads.{
  Pc, outside, sets_avail, stale, in_update, update, Mem, Move, copy_in, copy_out, unlock_write,
  lock_avail, unlock_read, query, set_avail, unlocks_avail, State, Step, moves, wake_up,
  unlocks_read, Reach, here, next, at_rest, tears,
}
use linux_kernel_ldd.Chardrvs.Threads.Exclusion.{Exclusive, Locks, Reach-Locks, never_clash}

-- With the room in the FIFO read and `avail` still to be set.
abbrev pub sets : Pc → Bool
sets (sets_avail n) = true
sets _ = false

sets-in_update : (p : Pc) → sets p ≡ true → in_update p ≡ true
sets-in_update (sets_avail n) h = refl
sets-in_update outside h = absurd (ground (arith, h))
sets-in_update _ h = ground (arith, h)

abbrev value : Pc → ℕ
value (sets_avail n) = n
value _ = 0

-- A thread is still to read the room, or has read the room that there is, or `avail` is that room and no
-- thread is to set it.
pub data Fresh (room avail : ℕ) (pc : ℕ → Pc) : Type 0 where
  unread : (i : ℕ) → stale (pc i) ≡ true → Fresh room avail pc
  read : (i : ℕ) → pc i ≡ sets_avail room → Fresh room avail pc
  settled : room ≡ avail → ((i : ℕ) → sets (pc i) ≡ false) → Fresh room avail pc

Fresh-stale :
    {room avail : ℕ} (pc : ℕ → Pc) (i : ℕ) (p : Pc)
    → stale p ≡ true
    → Fresh room avail (update pc i p)
Fresh-stale pc i p q = unread i (ground arith)

module _ {room avail : ℕ} (pc : ℕ → Pc) (i : ℕ) where
  -- A thread that neither was to read or set the room nor is.
  Fresh-idle :
      (p : Pc)
      → stale (pc i) ≡ false
      → sets (pc i) ≡ false
      → sets p ≡ false
      → Fresh room avail pc
      → Fresh room avail (update pc i p)
  Fresh-idle p not_stale not_sets after (unread j q) = unread j (ground arith)
  Fresh-idle p not_stale not_sets after (read j q) = read j (ground (arith, ap sets q))
  Fresh-idle p not_stale not_sets after (settled e q) = settled e (λ j. ground (arith, q j))

  Fresh-set :
      {l : Bool} (n : ℕ)
      → Exclusive in_update l pc
      → pc i ≡ sets_avail n
      → Fresh room avail pc
      → Fresh room n (update pc i unlocks_avail)
  Fresh-set n e at (unread j q) = unread j (ground (arith, ap stale at))
  Fresh-set n e at (read j q) =
      settled
        (ap value (sym q)
          ∙ ap (λ x. value (pc x)) (e.alone j i (ap in_update q) (ap in_update at))
          ∙ ap value at)
        (λ j'. ground (arith, sets-in_update (pc j'), e.alone i j', ap in_update at))
  Fresh-set n e at (settled eq q) = absurd (ground (arith, q i, ap sets at))

module _ (k : Kfifo) where
  open k use {Fifo, kfifo_avail}

  Fits : Mem k → (ℕ → Pc) → Type 0
  Fits m pc = Fresh (kfifo_avail m.dev.myfifo) m.dev.avail pc

  Move-Fits :
      {m m' : Mem k} {p p' : Pc} (pc : ℕ → Pc) (i : ℕ)
      → Exclusive in_update m.lock pc
      → pc i ≡ p
      → Move k m p m' p'
      → Fits m pc
      → Fits m' (update pc i p')
  unfolding Fits
  Move-Fits pc i e at copy_in f = Fresh-stale pc i _ refl
  Move-Fits pc i e at copy_out f = Fresh-stale pc i _ refl
  Move-Fits pc i e at unlock_write f = Fresh-stale pc i _ refl
  Move-Fits pc i e at unlock_read f = Fresh-stale pc i _ refl
  Move-Fits pc i e at (lock_avail free) f = Fresh-stale pc i _ refl
  Move-Fits pc i e at query f = read i (ground arith)
  Move-Fits pc i e at (set_avail {n}) f = Fresh-set pc i n e at f
  Move-Fits pc i e at _ f = Fresh-idle pc i _ (ap stale at) (ap sets at) refl f

  Step-Fits : {s t : State k} → Locks k s → Step k s t → Fits s.mem s.pc → Fits t.mem t.pc
  unfolding Fits
  Step-Fits {s} l (moves i at mv) f = Move-Fits s.pc i l.update at mv f
  Step-Fits {s} l (wake_up i at) f = Fresh-stale _ i unlocks_read refl
  Step-Fits {s} l (tears i j other both f') f =
      absurd (ground (arith, never_clash k s i j l other, both))

  Reach-Fits :
      (d : Dev Fifo) {s : State k}
      → kfifo_avail d.myfifo ≡ d.avail
      → Reach k (at_rest k d) s
      → Fits s.mem s.pc
  unfolding Fits
  Reach-Fits d e here = settled e (λ i. refl)
  Reach-Fits d e (next r st) = Step-Fits (Reach-Locks k d r) st (Reach-Fits d e r)

  Fits-settled :
      (m : Mem k) (pc : ℕ → Pc)
      → ((i : ℕ) → stale (pc i) || sets (pc i) ≡ false)
      → Fits m pc
      → m.dev.avail ≡ kfifo_avail m.dev.myfifo
  unfolding Fits
  Fits-settled m pc none (unread i q) = absurd (ground (arith, none i))
  Fits-settled m pc none (read i q) = absurd (ground (arith, none i, ap sets q))
  Fits-settled m pc none (settled e q) = sym e

  poll_settled :
      (d : Dev Fifo) (room : ℕ) → d.avail ≡ room → poll_dev d ≡ (if room == 0 then 0 else pollout)
  unfolding poll_dev
  poll_settled d room e = ap (λ (n : ℕ). if n == 0 then 0 else pollout) e

  -- Whatever threads do, in any order, from a device at rest whose `avail` is the room in its FIFO: it is
  -- so again whenever no thread is between a copy and the end of the update of `avail` that follows it,
  -- and a poll then reports a write as possible just where there is room.
  pub avail_settles :
      (d : Dev Fifo) {s : State k}
      → kfifo_avail d.myfifo ≡ d.avail
      → Reach k (at_rest k d) s
      → ((i : ℕ) → stale (s.pc i) || sets (s.pc i) ≡ false)
      → let room = kfifo_avail s.mem.dev.myfifo in
        (s.mem.dev.avail ≡ room) × (poll_dev s.mem.dev ≡ (if room == 0 then 0 else pollout))
  avail_settles d {s} e r none =
      let same = Fits-settled s.mem s.pc none (Reach-Fits d e r) in
      (same, poll_settled s.mem.dev (kfifo_avail s.mem.dev.myfifo) same)
