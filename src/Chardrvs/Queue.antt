-- ===== src/Chardrvs/Queue.antt =====
-- chardrvs.c as a bounded queue of bytes: what its reads and writes promise to processes that give good
-- buffers and get no signals.
use linux_kernel_ldd.Prelude.{
  ℕ, ◌+◌, ◌-◌, min, ◌≡◌, refl, ap, ◌∙◌, ◌≤◌, take-length, drop-length, append-nil, Bool, true,
  false, Option, none, some, List, [], ◌∷◌, ◌++◌, arith, leb, if◌then◌else◌, length, take, drop,
}
use mathlib.Core.Path.{ap₂}
use linux_kernel_ldd.Kernel.Kfifo.{Kfifo}
use linux_kernel_ldd.Kernel.Moves.{join_moves, get_moves}
use linux_kernel_ldd.Chardrvs.{Dev, write_wait, write_fifo, read_fifo}
use linux_kernel_ldd.Chardrvs.System.{
  Call, writes, reads, wake, Sleeper, System, Moved, step, start_write, start_read, wake_up, run,
}

-- A queue with the bytes in it, the room left, and the message of the one writer that waits for room.
pub record Queue : Type 0 where
  pub items : List ℕ
  pub room : ℕ
  pub waiting : Option (List ℕ)

-- A message is put, some bytes are asked for, or the waiting writer tries again.
pub data Ask : Type 0 where
  puts : List ℕ → Ask
  gets : ℕ → Ask
  retries : Ask

-- The queue after an ask, with the bytes taken and the bytes given.
pub record Answer : Type 0 where
  pub next : Queue
  pub taken : List ℕ
  pub given : List ℕ

abbrev pub same : Queue → Answer
same q = record { next = q; taken = []; given = [] }

abbrev pub joins : List ℕ → Queue → Answer
joins buf q = record {
  next = record { items = q.items ++ buf; room = q.room - length buf; waiting = none };
  taken = buf;
  given = [];
}

-- A message goes in whole or not at all; it waits where there is no room, unless another one waits.
abbrev pub put : List ℕ → Option (List ℕ) → Queue → Answer
put buf (some other) q = same q
put buf none q =
    if leb (length buf) q.room then joins buf q else same (record q { waiting = some buf })

abbrev pub retry : Option (List ℕ) → Queue → Answer
retry none q = same q
retry (some buf) q = if leb (length buf) q.room then joins buf q else same q

-- The oldest bytes come out, as many as are asked for and there are.
abbrev pub get : ℕ → Queue → Answer
get count q =
    let n : ℕ = min count (length q.items) in
    record {
      next = record { items = drop n q.items; room = q.room + n; waiting = q.waiting };
      taken = [];
      given = take n q.items;
    }

abbrev pub answer : Queue → Ask → Answer
answer q (puts buf) = put buf q.waiting q
answer q (gets count) = get count q
answer q retries = retry q.waiting q

pub answers : Queue → List Ask → Answer
answers q [] = same q
answers q (a ∷ asks) =
    let first = answer q a in
    let rest = answers first.next asks in
    record {
      next = rest.next;
      taken = first.taken ++ rest.taken;
      given = first.given ++ rest.given;
    }

-- The calls of chardrvs.c that ask so.
abbrev pub call : Ask → Call
call (puts buf) = writes false buf (length buf)
call (gets count) = reads false count count
call retries = wake false

pub calls : List Ask → List Call
calls [] = []
calls (a ∷ asks) = call a ∷ calls asks

abbrev pub sleeper_of : Option (List ℕ) → Sleeper
sleeper_of none = none
sleeper_of (some buf) = some (buf, length buf)

abbrev pub waits : Option (List ℕ) → Bool
waits none = false
waits (some buf) = true

module _ (k : Kfifo) where
  open k use {Fifo, contents, kfifo_avail}

  -- The device shows a queue: its FIFO holds the items, its cached room is the true room, and its write
  -- mutex is held just where a writer waits.
  pub record Shows (s : System k) (q : Queue) : Type 0 where
    pub items : contents s.dev.myfifo ≡ q.items
    pub room : kfifo_avail s.dev.myfifo ≡ q.room
    pub cached : s.dev.avail ≡ q.room
    pub sleeps : s.sleeper ≡ sleeper_of q.waiting
    pub held : s.dev.w_f_lock ≡ waits q.waiting
    pub free : s.dev.r_f_lock ≡ false

  -- One call answers as the queue does.
  abbrev pub Agrees : Moved k → Answer → Type 0
  Agrees m a = Shows m.next a.next × (m.taken ≡ a.taken) × (m.given ≡ a.given)

  put-Agrees :
      (s : System k) (q : Queue) (buf : List ℕ)
      → Shows s q
      → Agrees (step k s (call (puts buf))) (put buf q.waiting q)
  unfolding step start_write write_fifo
  put-Agrees s q buf h = ground (arith, join_moves k s.dev.myfifo buf)

  get-Agrees :
      (s : System k) (q : Queue) (count : ℕ)
      → Shows s q
      → Agrees (step k s (call (gets count))) (get count q)
  unfolding step start_read read_fifo
  get-Agrees s q count h = ground (arith, get_moves k s.dev.myfifo count)

  wake_up-Agrees :
      (d : Dev Fifo) (w : Option (List ℕ)) (q : Queue)
      → Shows (record { dev = d; sleeper = sleeper_of w }) q
      → q.waiting ≡ w
      → Agrees (wake_up k false (sleeper_of w) d) (retry w q)
  unfolding wake_up write_wait
  wake_up-Agrees d none q h e = ground arith
  wake_up-Agrees d (some buf) q h e = ground (arith, join_moves k d.myfifo buf)

  retry-Agrees :
      (s : System k) (q : Queue) → Shows s q → Agrees (step k s (call retries)) (retry q.waiting q)
  unfolding step
  retry-Agrees s q h =
      let shows : Shows (record { dev = s.dev; sleeper = sleeper_of q.waiting }) q = record {
        items = h.items;
        room = h.room;
        cached = h.cached;
        sleeps = refl;
        held = h.held;
        free = h.free;
      } in
      rw h.sleeps (wake_up-Agrees s.dev q.waiting q shows refl)

  step-Agrees :
      (s : System k) (q : Queue) (a : Ask) → Shows s q → Agrees (step k s (call a)) (answer q a)
  step-Agrees s q (puts buf) h = put-Agrees s q buf h
  step-Agrees s q (gets count) h = get-Agrees s q count h
  step-Agrees s q retries h = retry-Agrees s q h

  -- Where the device shows a queue, every sequence of asks, each with a good buffer and no signal, takes
  -- and gives the bytes that the queue takes and gives, and leads to a device that shows the queue after
  -- them.
  pub run-Agrees :
      (s : System k) (q : Queue) (asks : List Ask)
      → Shows s q
      → Agrees (run k s (calls asks)) (answers q asks)
  unfolding run answers calls
  run-Agrees s q [] h = (h, refl, refl)
  run-Agrees s q (a ∷ asks) h =
      let (shows, taken, given) = step-Agrees s q a h in
      let (shows', taken', given') =
        run-Agrees (step k s (call a)).next (answer q a).next asks shows in
      (shows', ap₂ ◌++◌ taken taken', ap₂ ◌++◌ given given')

  drained :
      (q : Queue) (buf : List ℕ) (n : ℕ)
      → q.waiting ≡ some buf
      → length buf ≤ q.room + length q.items
      → length q.items ≤ n
      → let a = answers q (gets n ∷ retries ∷ []) in
        (a.taken ≡ buf) × (a.given ≡ q.items) × (a.next.waiting ≡ none) × (a.next.items ≡ buf)
  unfolding answers
  drained q buf n w fits all = ground (
    arith,
    take-length (length q.items) q.items,
    drop-length (length q.items) q.items,
    append-nil buf,
    append-nil q.items,
  )

  -- A writer that sleeps with a message no longer than the whole FIFO completes: where a reader takes all
  -- bytes that are there, the reader gets them in order, and the wake-up after it puts the writer's
  -- message into the FIFO as a whole, with nobody asleep and the mutex free.
  pub drained-run :
      (s : System k) (q : Queue) (buf : List ℕ) (n : ℕ)
      → Shows s q
      → q.waiting ≡ some buf
      → length buf ≤ q.room + length q.items
      → length q.items ≤ n
      → let m = run k s (reads false n n ∷ wake false ∷ []) in
        (m.given ≡ q.items)
        × (m.taken ≡ buf)
        × (contents m.next.dev.myfifo ≡ buf)
        × (m.next.sleeper ≡ none)
        × (m.next.dev.w_f_lock ≡ false)
  unfolding calls
  drained-run s q buf n h w fits all =
      let (shows, taken, given) = run-Agrees s q (gets n ∷ retries ∷ []) h in
      let (its_taken, its_given, none_waits, its_items) = drained q buf n w fits all in
      (
        given ∙ its_given,
        taken ∙ its_taken,
        shows.items ∙ its_items,
        shows.sleeps ∙ ap sleeper_of none_waits,
        shows.held ∙ ap waits none_waits,
      )
