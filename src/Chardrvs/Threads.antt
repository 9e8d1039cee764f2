-- ===== src/Chardrvs/Threads.antt =====
-- chardrvs_write_fifo and chardrvs_read_fifo as threads run them, one access to the device at a time and
-- in any order. Any number of threads share the device.
pub mod Exclusion
pub mod Conserve
pub mod Rooms
pub mod Races
pub mod Alone
pub mod Owners
pub mod Progress
pub mod Lost
mod Tests
use linux_kernel_ldd.Prelude.{
  ℕ, ◌≤◌, ◌<◌, ◌≡◌, Bool, true, false, List, [], ◌++◌, take, if◌then◌else◌, ◌==◌,
}
use linux_kernel_ldd.Kernel.Kfifo.{Kfifo}
use linux_kernel_ldd.Chardrvs.{Dev}

-- Where a thread stands: outside; in a write, with its buffer and count, in `mutex_lock_interruptible`,
-- before the test of its condition, asleep, in the copy, or after it; in a read, with its room and count,
-- in `mutex_lock_interruptible`, in the copy, or after it; or, in either, at one of the four steps of the
-- update of `avail`, with the room that it has read.
pub data Pc : Type 0 where
  outside : Pc
  locks_write : List ℕ → ℕ → Pc
  tests : List ℕ → ℕ → Pc
  sleeps : List ℕ → ℕ → Pc
  copies_in : List ℕ → ℕ → Pc
  unlocks_write : Pc
  locks_read : ℕ → ℕ → Pc
  copies_out : ℕ → ℕ → Pc
  wakes : Pc
  unlocks_read : Pc
  locks_avail : Pc
  queries : Pc
  sets_avail : ℕ → Pc
  unlocks_avail : Pc

-- Between `mutex_lock_interruptible` and `mutex_unlock`.
abbrev pub in_write : Pc → Bool
in_write (tests buf count) = true
in_write (sleeps buf count) = true
in_write (copies_in buf count) = true
in_write unlocks_write = true
in_write _ = false

abbrev pub in_read : Pc → Bool
in_read (copies_out room count) = true
in_read wakes = true
in_read unlocks_read = true
in_read _ = false

abbrev pub in_update : Pc → Bool
in_update queries = true
in_update (sets_avail n) = true
in_update unlocks_avail = true
in_update _ = false

-- After a copy, with the room in the FIFO still to be read.
abbrev pub stale : Pc → Bool
stale unlocks_write = true
stale wakes = true
stale unlocks_read = true
stale locks_avail = true
stale queries = true
stale _ = false

-- Two threads copy into the FIFO at once, or out of it.
abbrev pub clash : Pc → Pc → Bool
clash (copies_in buf count) (copies_in buf' count') = true
clash (copies_out room count) (copies_out room' count') = true
clash _ _ = false

-- `wake_up_interruptible` on a thread.
abbrev pub woken : Pc → Pc
woken (sleeps buf count) = tests buf count
woken outside = outside
woken (locks_write buf count) = locks_write buf count
woken (locks_read room count) = locks_read room count
woken (tests buf count) = tests buf count
woken (copies_in buf count) = copies_in buf count
woken unlocks_write = unlocks_write
woken (copies_out room count) = copies_out room count
woken wakes = wakes
woken unlocks_read = unlocks_read
woken locks_avail = locks_avail
woken queries = queries
woken (sets_avail n) = sets_avail n
woken unlocks_avail = unlocks_avail

abbrev pub update : {A : Type 0} → (ℕ → A) → ℕ → A → ℕ → A
update f i a j = if j == i then a else f j

module _ (k : Kfifo) where
  open k use {Fifo, kfifo_avail, kfifo_from_user, kfifo_to_user}

  -- The device with its third mutex, `lock`, and the bytes that the FIFO has taken from writers and
  -- given to readers so far.
  pub record Mem : Type 0 where
    pub dev : Dev Fifo
    pub lock : Bool
    pub taken : List ℕ
    pub given : List ℕ

  abbrev pub with_dev : Mem → Dev Fifo → Mem
  with_dev m d = record m { dev = d }

  abbrev pub copied_in : Mem → List ℕ → ℕ → Mem
  copied_in m buf count =
      let r = kfifo_from_user m.dev.myfifo buf count in
      record {
        dev = record m.dev { myfifo = r.fifo };
        lock = m.lock;
        taken = m.taken ++ take r.copied buf;
        given = m.given;
      }

  abbrev pub copied_out : Mem → ℕ → ℕ → Mem
  copied_out m room count =
      let r = kfifo_to_user m.dev.myfifo room count in
      record {
        dev = record m.dev { myfifo = r.fifo };
        lock = m.lock;
        taken = m.taken;
        given = m.given ++ r.bytes;
      }

  -- One step of one thread, but for the wake-up of others. A signal ends the wait for a mutex, and a sleep
  -- with the mutex still held. A copy goes on from the step before until its own, which is its end. Both
  -- handlers end with the update of `avail`.
  pub data Move (m : Mem) : Pc → Mem → Pc → Type 0 where
    ask_write : (buf : List ℕ) (count : ℕ) → Move m outside m (locks_write buf count)
    give_up_write : {buf : List ℕ} {count : ℕ} → Move m (locks_write buf count) m outside
    lock_write :
        {buf : List ℕ} {count : ℕ}
        → m.dev.w_f_lock ≡ false
        → Move m
            (locks_write buf count)
            (with_dev m (record m.dev { w_f_lock = true }))
            (tests buf count)
    pass :
        {buf : List ℕ} {count : ℕ}
        → count ≤ m.dev.avail
        → Move m (tests buf count) m (copies_in buf count)
    sleep :
        {buf : List ℕ} {count : ℕ}
        → m.dev.avail < count
        → Move m (tests buf count) m (sleeps buf count)
    interrupt : {buf : List ℕ} {count : ℕ} → Move m (sleeps buf count) m outside
    copy_in :
        {buf : List ℕ} {count : ℕ}
        → Move m (copies_in buf count) (copied_in m buf count) unlocks_write
    unlock_write : Move m unlocks_write (with_dev m (record m.dev { w_f_lock = false })) locks_avail
    ask_read : (room count : ℕ) → Move m outside m (locks_read room count)
    give_up_read : {room count : ℕ} → Move m (locks_read room count) m outside
    lock_read :
        {room count : ℕ}
        → m.dev.r_f_lock ≡ false
        → Move m
            (locks_read room count)
            (with_dev m (record m.dev { r_f_lock = true }))
            (copies_out room count)
    copy_out : {room count : ℕ} → Move m (copies_out room count) (copied_out m room count) wakes
    unlock_read : Move m unlocks_read (with_dev m (record m.dev { r_f_lock = false })) locks_avail
    lock_avail : m.lock ≡ false → Move m locks_avail (record m { lock = true }) queries
    query : Move m queries m (sets_avail (kfifo_avail m.dev.myfifo))
    set_avail :
        {n : ℕ} → Move m (sets_avail n) (with_dev m (record m.dev { avail = n })) unlocks_avail
    unlock_avail : Move m unlocks_avail (record m { lock = false }) outside

  pub record State : Type 0 where
    pub mem : Mem
    pub pc : ℕ → Pc

  pub data Step (s : State) : State → Type 0 where
    moves :
        (i : ℕ) {m : Mem} {p p' : Pc}
        → s.pc i ≡ p
        → Move s.mem p m p'
        → Step s (record { mem = m; pc = update s.pc i p' })
    wake_up :
        (i : ℕ)
        → s.pc i ≡ wakes
        → Step s (record { mem = s.mem; pc = update (λ j. woken (s.pc j)) i unlocks_read })
    -- linux/kfifo.h asks for a lock between several writers, and between several readers: without one the
    -- FIFO may hold anything.
    tears :
        (i j : ℕ)
        → (i == j) ≡ false
        → clash (s.pc i) (s.pc j) ≡ true
        → (f : Fifo)
        → Step s (record { mem = with_dev s.mem (record s.mem.dev { myfifo = f }); pc = s.pc })

  pub data Reach (s : State) : State → Type 0 where
    here : Reach s s
    next : {t u : State} → Reach s t → Step t u → Reach s u

  -- A device that no thread uses.
  abbrev pub at_rest : Dev Fifo → State
  at_rest d = record {
    mem = record { dev = d; lock = false; taken = []; given = [] };
    pc = λ i. outside;
  }
