-- ===== src/Jiq/Reader.antt =====
-- The readers of jiq.c, which sleep while the work that they schedule prints into their page.
pub mod Ends
use linux_kernel_ldd.Prelude.{ℕ, Bool, true, false, not, ◌&&◌, ◌||◌, List, [], ◌∷◌, if◌then◌else◌}
use mathlib.Core.Option
use linux_kernel_ldd.Jiq.{
  Clientdata, jiq_print, read_wq_show, read_wq_delayed_show, read_tasklet_show,
}

-- `jiq_read_wq_show`, `jiq_read_wq_delayed_show` and `jiq_read_tasklet_show`.
pub data Show : Type 0 where
  wq : Show
  wq_delayed : Show
  tasklet : Show

-- Whether the wake-up of `jiq_wait` ends the wait. The first two sleep once, by `schedule`; the last
-- waits, by `wait_event_interruptible`, for a condition that is 0.
pub ends_on_wake : Show → Bool
ends_on_wake wq = true
ends_on_wake wq_delayed = true
ends_on_wake tasklet = false

-- A reader: the data, whether the work is scheduled, whether the reader still waits, and whether a
-- line was printed into the page of a reader that no longer does.
pub record Reader : Type 0 where
  pub client : Clientdata
  pub scheduled : Bool
  pub waiting : Bool
  pub stray : Bool

-- The reader when it goes to sleep: for the time, the parameter `delay` and the data before.
pub show_starts : Show → ℕ → ℕ → Clientdata → Reader
unfolding read_wq_show read_wq_delayed_show read_tasklet_show
show_starts wq j delay client = record {
  client = read_wq_show j;
  scheduled = true;
  waiting = true;
  stray = false;
}
show_starts wq_delayed j delay client = record {
  client = read_wq_delayed_show delay j;
  scheduled = true;
  waiting = true;
  stray = false;
}
show_starts tasklet j delay client = record {
  client = read_tasklet_show j client;
  scheduled = true;
  waiting = true;
  stray = false;
}

-- A run of the work, with its time and the bytes of its line, or a signal to the reader.
pub data Happening : Type 0 where
  work_runs : ℕ → ℕ → Happening
  signal : Happening

-- `jiq_print_wq`, `jiq_print_wq_delayed` and `jiq_print_tasklet`, and the wake-up in `jiq_print`.
pub print_work : ℕ → ℕ → Show → ℕ → ℕ → Reader → Reader
unfolding jiq_print ends_on_wake
print_work page_size heading show j line reader =
    let (again, client) = jiq_print page_size heading line j reader.client in
    record {
      client = client;
      scheduled = again;
      waiting = reader.waiting && (again || not (ends_on_wake show));
      stray = if reader.waiting then reader.stray else reader.stray || again;
    }

-- One happening. No work runs that is not scheduled.
pub happens : ℕ → ℕ → Show → Happening → Reader → Reader
unfolding print_work
happens page_size heading show signal reader = record reader { waiting = false }
happens page_size heading show (work_runs j line) reader =
    if reader.scheduled then print_work page_size heading show j line reader else reader

pub history : ℕ → ℕ → Show → List Happening → Reader → Reader
unfolding happens
history page_size heading show [] reader = reader
history page_size heading show (h ∷ hs) reader =
    history page_size heading show hs (happens page_size heading show h reader)

-- Runs of the work alone.
abbrev pub undisturbed : List (ℕ × ℕ) → List Happening
undisturbed [] = []
undisturbed ((j, line) ∷ runs) = work_runs j line ∷ undisturbed runs
