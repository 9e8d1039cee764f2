-- ===== src/Jiq/Reader/Ends.antt =====
-- The ends of the readers of jiq.c.
use linux_kernel_ldd.Prelude.{
  ℕ, ◌+◌, ◌≤◌, ◌<◌, ◌≡◌, refl, ap, Bool, true, false, not, ◌||◌, Option, some, List, [], ◌∷◌, arith,
  length,
}
use mathlib.Core.Option
use linux_kernel_ldd.Jiq.{
  limit, Clientdata, jiq_print, print_runs, read_wq_show, read_wq_delayed_show, read_tasklet_show,
}
use linux_kernel_ldd.Jiq.Page.{AllPrint, IsDone, IsDone-map, print_runs-IsDone_from}
use linux_kernel_ldd.Jiq.Reader.{
  Show, wq, wq_delayed, tasklet, ends_on_wake, Reader, show_starts, work_runs, signal, print_work,
  happens, history, undisturbed,
}

-- The reader when the work has come to its end with data `client`: no stray line, and it waits on
-- only where the wake-up does not end the wait.
abbrev pub work_done : Show → Clientdata → Reader
work_done show client = record {
  client = client;
  scheduled = false;
  waiting = not (ends_on_wake show);
  stray = false;
}

-- The reader after a run of the work that it slept through.
abbrev slept : Show → Bool → Clientdata → Reader
slept show again client = record {
  client = client;
  scheduled = again;
  waiting = again || not (ends_on_wake show);
  stray = false;
}

abbrev Finishes : Show → Option (ℕ × Clientdata) → Reader → Type 0
Finishes show Option.none after = Unit
Finishes show (some (lines, client)) after = after ≡ work_done show client

Finishes-map :
    (show : Show) (r : Option (ℕ × Clientdata)) (after : Reader)
    → Finishes show r after
    → Finishes show (Option.map (λ p. (p.0 + 1, p.1)) r) after
Finishes-map show Option.none after h = h
Finishes-map show (some (lines, client)) after h = h

history_idle :
    (page_size heading : ℕ) (show : Show) (runs : List (ℕ × ℕ)) (client : Clientdata)
    → history page_size heading show (undisturbed runs) (slept show false client)
      ≡ slept show false client
unfolding history happens
history_idle page_size heading show [] client = refl
history_idle page_size heading show ((j, line) ∷ runs) client =
    history_idle page_size heading show runs client

history-slept :
    (page_size heading : ℕ) (show : Show) (runs : List (ℕ × ℕ)) (again : Bool) (client : Clientdata)
    → Finishes show
        (elim again [
          | false ↦ some (0, client)
          | true ↦ Option.map (λ r. (r.0 + 1, r.1)) (print_runs page_size heading runs client)
        ])
        (history page_size heading show (undisturbed runs) (slept show again client))
unfolding history happens print_work print_runs
history-slept page_size heading show runs false client =
    history_idle page_size heading show runs client
history-slept page_size heading show [] true client = tt
history-slept page_size heading show ((j, line) ∷ runs) true client =
    let next = jiq_print page_size heading line j client in
    Finishes-map show _ _ (history-slept page_size heading show runs next.0 next.1)

finished :
    (page_size : ℕ) (show : Show) (r : Option (ℕ × Clientdata)) (after : Reader)
    → IsDone page_size r
    → Finishes show r after
    → (after ≡ work_done show after.client) × (limit page_size < after.client.len)
finished page_size show Option.none after done ends = absurd done
finished page_size show (some (lines, client)) after done ends = rw ends (refl, done)

slept-finished :
    (page_size heading : ℕ) (show : Show) (runs : List (ℕ × ℕ)) (client : Clientdata)
    → AllPrint runs
    → limit page_size + 1 < length runs
    → let after = history page_size heading show (undisturbed runs) (slept show true client) in
      (after ≡ work_done show after.client) × (limit page_size < after.client.len)
slept-finished page_size heading show runs client p h =
    finished page_size show _ _
      (IsDone-map page_size (print_runs page_size heading runs client)
        (print_runs-IsDone_from page_size heading runs client p (omega arith) (omega arith)))
      (history-slept page_size heading show runs true client)

-- The reader that no wake-up brings back.
abbrev pub waits_for_ever : Show → Bool
waits_for_ever wq = false
waits_for_ever wq_delayed = false
waits_for_ever tasklet = true

-- Whatever stood in the data before: where no signal comes, each line has a byte, and the runs are
-- more than the bytes of the limit and one, the work comes to its end past the limit and is scheduled
-- no more, without a line into the page of a reader that has returned. The two readers of the work
-- queues have returned then, by the wake-up; the reader of the tasklet still waits.
pub reader_ends :
    (page_size heading : ℕ) (show : Show) (j delay : ℕ) (client : Clientdata) (runs : List (ℕ × ℕ))
    → AllPrint runs
    → limit page_size + 1 < length runs
    → let after =
        history page_size heading show (undisturbed runs) (show_starts show j delay client) in
      (after.scheduled ≡ false)
      × (after.stray ≡ false)
      × (limit page_size < after.client.len)
      × (after.waiting ≡ waits_for_ever show)
unfolding show_starts ends_on_wake
reader_ends page_size heading wq j delay client runs p h =
    let (done, past) = slept-finished page_size heading wq runs (read_wq_show j) p h in
    (ap Reader.scheduled done, ap Reader.stray done, past, ap Reader.waiting done)
reader_ends page_size heading wq_delayed j delay client runs p h =
    let (done, past) =
      slept-finished page_size heading wq_delayed runs (read_wq_delayed_show delay j) p h in
    (ap Reader.scheduled done, ap Reader.stray done, past, ap Reader.waiting done)
reader_ends page_size heading tasklet j delay client runs p h =
    let (done, past) =
      slept-finished page_size heading tasklet runs (read_tasklet_show j client) p h in
    (ap Reader.scheduled done, ap Reader.stray done, past, ap Reader.waiting done)

tasklet_waits :
    (page_size heading : ℕ) (runs : List (ℕ × ℕ)) (reader : Reader)
    → reader.waiting ≡ true
    → (history page_size heading tasklet (undisturbed runs) reader).waiting ≡ true
unfolding history happens print_work ends_on_wake
tasklet_waits page_size heading [] reader w = w
tasklet_waits page_size heading ((j, line) ∷ runs) reader w =
    tasklet_waits page_size heading runs
      (happens page_size heading tasklet (work_runs j line) reader) (ground arith)

-- The reader of the tasklet never returns but by a signal, whatever runs the work makes.
pub tasklet_reader_waits :
    (page_size heading j delay : ℕ) (client : Clientdata) (runs : List (ℕ × ℕ))
    → let after =
        history page_size heading tasklet (undisturbed runs) (show_starts tasklet j delay client) in
      after.waiting ≡ true
unfolding show_starts
tasklet_reader_waits page_size heading j delay client runs =
    tasklet_waits page_size heading runs (show_starts tasklet j delay client) refl

-- A signal before the work's end: the next run that finds the page below its limit prints into the page
-- of a reader that has returned.
pub signal_strays :
    (page_size heading : ℕ) (show : Show) (j line : ℕ) (reader : Reader)
    → reader.scheduled ≡ true
    → reader.client.len ≤ limit page_size
    → (history page_size heading show (signal ∷ work_runs j line ∷ []) reader).stray ≡ true
unfolding history happens print_work jiq_print
signal_strays page_size heading show j line reader on low = ground arith
