-- ===== src/Jiq/Shared.antt =====
-- The one `jiq_data` of jiq.c and the one `jiq_wait`, which all readers of its files in /proc share: any
-- number of readers, runs of the work and signals, in any order. The stores to `jiq_data` take no lock: that of
-- `len` is a step of its own, and anything can come between it and the rest of a reader's function up to its
-- sleep, which is one step here, as a run of the work is.
pub mod Awaited
pub mod Returns
pub mod Strays
pub mod Pages
mod Tests
use linux_kernel_ldd.Prelude.{
  ℕ, suc, ◌-◌, Bool, true, false, ◌&&◌, ◌||◌, Option, none, some, List, [], ◌∷◌, ◌==◌,
  if◌then◌else◌, put,
}
use linux_kernel_ldd.Jit.{jitimer}
use linux_kernel_ldd.Jiq.{Clientdata, jiq_print, jiqwq, jiqwqdelay, jiqtasklet}

-- The four fields of `struct clientdata` that the kernel runs a function of.
pub data Work : Type 0 where
  jiq_work : Work
  jiq_delayed_work : Work
  jiq_tasklet : Work
  jiq_timer : Work

abbrev pub same : Work → Work → Bool
same jiq_work jiq_work = true
same jiq_delayed_work jiq_delayed_work = true
same jiq_tasklet jiq_tasklet = true
same jiq_timer jiq_timer = true
same _ _ = false

abbrev pub schedule : Work → Bool → (Work → Bool) → Work → Bool
schedule w again pending v = if same w v then again else pending v

-- The four tables of operations, each by the work that a read of its file schedules.
abbrev pub jiq_read_wq_fops : Work
jiq_read_wq_fops = jiq_work

abbrev pub jiq_read_wq_delayed_fops : Work
jiq_read_wq_delayed_fops = jiq_delayed_work

abbrev pub jiq_read_tasklet_fops : Work
jiq_read_tasklet_fops = jiq_tasklet

abbrev pub jiq_read_run_timer_fops : Work
jiq_read_run_timer_fops = jiq_timer

-- The table that `jiq_init` gives to a name.
pub fops_of : ℕ → Option Work
fops_of name =
    if name == jiqwq
    then some jiq_read_wq_fops
    else if name == jiqwqdelay
    then some jiq_read_wq_delayed_fops
    else if name == jitimer
    then some jiq_read_run_timer_fops
    else if name == jiqtasklet
    then some jiq_read_tasklet_fops
    else none

-- Readers are numbered. `m` is the reader whose `seq_file` the data lead to, `page` the bytes in the page of
-- each reader, and `sleeps_on` the work that a reader scheduled before it went to sleep, while it sleeps.
-- `starting` readers are between their store of `len` and that of `m`.
-- `stray` says that a line went into the page of a reader that had returned, `clobbered` that a pending timer
-- was set up again.
pub record System : Type 0 where
  pub client : Clientdata
  pub m : ℕ
  pub page : ℕ → ℕ
  pub pending : Work → Bool
  pub sleeps_on : ℕ → Option Work
  pub starting : ℕ
  pub next : ℕ
  pub stray : Bool
  pub clobbered : Bool

abbrev pub is_awake : Option Work → Bool
is_awake none = true
is_awake (some w) = false

-- `wake_up_interruptible` for a reader. `schedule` returns then; the condition of
-- `wait_event_interruptible` is 0.
abbrev pub woken : Option Work → Option Work
woken none = none
woken (some jiq_work) = none
woken (some jiq_delayed_work) = none
woken (some jiq_tasklet) = some jiq_tasklet
woken (some jiq_timer) = some jiq_timer

abbrev pub wake_up : System → System
wake_up s = record s { sleeps_on = λ i. woken (s.sleeps_on i) }

abbrev pub rescheduled : Work → Bool × System → System
rescheduled w (again, s) = record s { pending = schedule w again s.pending }

-- What a reader puts into the data after the store of `len`, at a time and for the parameter `delay`.
abbrev pub prepared : Work → ℕ → ℕ → Clientdata → Clientdata
prepared jiq_work j delay client = record client { jiffies = j; delay = 0 }
prepared jiq_delayed_work j delay client = record client { jiffies = j; delay = delay }
prepared jiq_tasklet j delay client = record client { jiffies = j }
prepared jiq_timer j delay client = record client { jiffies = j }

-- `jiq_data.len = 0`, with which the function of each file begins.
abbrev pub reset : System → System
reset s = record s { client = record s.client { len = 0 }; starting = suc s.starting }

-- What is pending after a signal to a reader: that of the timer calls `del_timer_sync`.
abbrev pub left : Option Work → (Work → Bool) → Work → Bool
left (some jiq_timer) pending = schedule jiq_timer false pending
left _ pending = pending

-- A reader's store of `len`; the rest of a read of a file up to its sleep, with the time and, for the first line of the reader of the timer, its bytes; a run of a
-- work, likewise; and a signal to a reader.
pub data Event : Type 0 where
  resets : Event
  reads : ℕ → ℕ → ℕ → Event
  runs : Work → ℕ → ℕ → Event
  signals : ℕ → Event

-- For the kernel's PAGE_SIZE, the bytes of the heading and the parameter `delay`.
module _ (page_size heading delay : ℕ) where
  -- `jiq_print` on the shared data.
  pub print : ℕ → ℕ → System → Bool × System
  unfolding jiq_print
  print j line s =
      let (again, client) =
        jiq_print page_size heading line j (record s.client { count = s.page s.m }) in
      (
        again,
        record s {
          client = client;
          page = put s.page s.m client.count;
          sleeps_on = if again then s.sleeps_on else (λ i. woken (s.sleeps_on i));
          stray = s.stray || (again && is_awake (s.sleeps_on s.m));
        },
      )

  -- A new reader after its store of `len`, up to its sleep.
  pub begins : Work → ℕ → System → System
  begins w j s = record {
    client = prepared w j delay s.client;
    m = s.next;
    page = put s.page s.next 0;
    pending = schedule w true s.pending;
    sleeps_on = put s.sleeps_on s.next (some w);
    starting = s.starting - 1;
    next = suc s.next;
    stray = s.stray;
    clobbered = s.clobbered || (same w jiq_timer && s.pending jiq_timer);
  }

  abbrev pub jiq_read_wq_show : ℕ → System → System
  jiq_read_wq_show = begins jiq_work

  abbrev pub jiq_read_wq_delayed_show : ℕ → System → System
  jiq_read_wq_delayed_show = begins jiq_delayed_work

  abbrev pub jiq_read_tasklet_show : ℕ → System → System
  jiq_read_tasklet_show = begins jiq_tasklet

  -- It prints a line of its own before its sleep.
  abbrev pub jiq_read_run_timer_show : ℕ → ℕ → System → System
  jiq_read_run_timer_show j line s = (print j line (begins jiq_timer j s)).1

  pub show : Work → ℕ → ℕ → System → System
  unfolding begins print
  show jiq_work j line s = jiq_read_wq_show j s
  show jiq_delayed_work j line s = jiq_read_wq_delayed_show j s
  show jiq_tasklet j line s = jiq_read_tasklet_show j s
  show jiq_timer j line s = jiq_read_run_timer_show j line s

  -- A work schedules itself again where `jiq_print` asks for it.
  abbrev pub jiq_print_wq : ℕ → ℕ → System → System
  jiq_print_wq j line s = rescheduled jiq_work (print j line s)

  abbrev pub jiq_print_wq_delayed : ℕ → ℕ → System → System
  jiq_print_wq_delayed j line s = rescheduled jiq_delayed_work (print j line s)

  abbrev pub jiq_print_tasklet : ℕ → ℕ → System → System
  jiq_print_tasklet j line s = rescheduled jiq_tasklet (print j line s)

  abbrev pub jiq_timedout : ℕ → ℕ → System → System
  jiq_timedout j line s =
      wake_up (print j line (record s { pending = schedule jiq_timer false s.pending })).1

  pub run : Work → ℕ → ℕ → System → System
  unfolding print
  run jiq_work j line s = jiq_print_wq j line s
  run jiq_delayed_work j line s = jiq_print_wq_delayed j line s
  run jiq_tasklet j line s = jiq_print_tasklet j line s
  run jiq_timer j line s = jiq_timedout j line s

  -- One event. No work runs that is not pending, and no reader goes on that has not begun.
  pub step : System → Event → System
  unfolding show run fops_of
  step s resets = reset s
  step s (reads name j line) =
      if s.starting == 0 then s else elim (fops_of name) [ none ↦ s | some w ↦ show w j line s ]
  step s (runs w j line) = if s.pending w then run w j line s else s
  step s (signals i) = record s {
    pending = left (s.sleeps_on i) s.pending;
    sleeps_on = put s.sleeps_on i none;
  }

  pub history : System → List Event → System
  unfolding step
  history s [] = s
  history s (e ∷ es) = history (step s e) es

-- The module when `jiq_init` is done.
abbrev pub loaded : System
loaded = record {
  client = record { count = 0; len = 0; jiffies = 0; delay = 0 };
  m = 0;
  page = λ i. 0;
  pending = λ w. false;
  sleeps_on = λ i. none;
  starting = 0;
  next = 0;
  stray = false;
  clobbered = false;
}
