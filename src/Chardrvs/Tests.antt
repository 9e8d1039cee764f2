-- ===== src/Chardrvs/Tests.antt =====
-- The theorems about chardrvs.c at work on small devices.
use linux_kernel_ldd.Prelude.{
  if◌then◌else◌, ◌<◌, ◌≡◌, refl, true, false, none, some, List, [], ◌∷◌, ◌++◌, arith, pos,
  is_nonzero, put,
}
use linux_kernel_ldd.Kernel.Errno.{enomem}
use linux_kernel_ldd.Kernel.Kfifo.{Store, store_kfifo}
use linux_kernel_ldd.Kernel.Replay.{held_after}
use linux_kernel_ldd.Chardrvs.{Dev, open_refused, count_user}
use linux_kernel_ldd.Chardrvs.System.{System, Call, writes, reads, wake, opens, run, run_conserves}
use linux_kernel_ldd.Chardrvs.Queue.{
  Queue, Ask, puts, gets, retries, answers, calls, Agrees, run-Agrees,
}
use linux_kernel_ldd.Chardrvs.Users.{IsCounted, open_call, close_call, file_run, file_run-IsCounted}
use linux_kernel_ldd.Chardrvs.Opens.{
  State, Reach, here, next, passes, counts, leaves, outside, let_in, opened, releasing,
  opened_below, open_race, ref_cntr-opened_below,
}
use linux_kernel_ldd.Chardrvs.Ioctl.{generic_ioc}
use linux_kernel_ldd.Chardrvs.AppTest.{wr_num, main, main_lem}
use linux_kernel_ldd.Chardrvs.Setup.{Answers, entry, chardrvs_init, chardrvs_init_unwinds}

abbrev empty : Store
empty = record { bytes = []; room = 4 }

-- An empty device of four bytes, with one of its two places taken.
abbrev idle : Dev Store
idle = record {
  myfifo = empty;
  r_f_lock = false;
  w_f_lock = false;
  usrs_cnt = 2;
  avail = 4;
  ref_cntr = 1;
}

abbrev alone : Dev Store → System store_kfifo
alone d = record { dev = d; sleeper = none }

abbrev history : List Call
history =
    opens
    ∷ writes false (7 ∷ 8 ∷ 9 ∷ []) 3
    ∷ writes false (5 ∷ 6 ∷ []) 2
    ∷ reads false 2 2
    ∷ wake false
    ∷ []

run_conserves_example :
    let m = run store_kfifo (alone idle) history in m.taken ≡ m.given ++ m.next.dev.myfifo.bytes
run_conserves_example = run_conserves store_kfifo (alone idle) history

-- The second message does not fit and waits, until four bytes are out.
abbrev asks : List Ask
asks = puts (7 ∷ 8 ∷ 9 ∷ []) ∷ puts (5 ∷ 6 ∷ []) ∷ gets 2 ∷ retries ∷ gets 9 ∷ []

abbrev nothing_in : Queue
nothing_in = record { items = []; room = 4; waiting = none }

run-Agrees_example :
    Agrees store_kfifo (run store_kfifo (alone idle) (calls asks)) (answers nothing_in asks)
run-Agrees_example =
    run-Agrees store_kfifo (alone idle) nothing_in asks
      (record { items = refl; room = refl; cached = refl; sleeps = refl; held = refl; free = refl })

file_run-IsCounted_example :
    IsCounted
      (file_run (record { dev = idle; files = 1 }) (open_call ∷ open_call ∷ close_call ∷ []))
file_run-IsCounted_example =
    file_run-IsCounted (record { dev = idle; files = 1 }) (open_call ∷ open_call ∷ close_call ∷ [])
      (record { counted = refl; limited = omega arith; small = omega arith })

-- One place is left.
abbrev one_left : State Store
one_left = record { dev = idle; pc = λ i. outside }

open_race_example :
    (t : State Store) × Reach Store 2 one_left t
    × (t.pc 0 ≡ opened)
    × (t.pc 1 ≡ opened)
    × (t.dev.usrs_cnt < t.dev.ref_cntr)
open_race_example =
    open_race Store 2 one_left 0 1 (omega arith) (omega arith) refl refl refl refl (omega arith)

abbrev unused : Dev Store
unused = record idle { ref_cntr = 0 }

-- The first of two threads has opened the device and is releasing it, the second is past its test.
abbrev overlap : State Store
overlap = record {
  dev = count_user unused;
  pc = put (put (put (put (λ i. outside) 0 let_in) 1 let_in) 0 opened) 0 releasing;
}

reach_overlap : Reach Store 2 (record { dev = unused; pc = λ i. outside }) overlap
reach_overlap =
    next
      (next (next (next here (passes 0 (omega arith) refl refl)) (passes 1 (omega arith) refl refl))
        (counts 0 (omega arith) refl))
      (leaves 0 (omega arith) refl refl)

ref_cntr-opened_below_example : overlap.dev.ref_cntr ≡ opened_below 2 overlap.pc
ref_cntr-opened_below_example = ref_cntr-opened_below 2 unused (omega arith) refl reach_overlap

main_lem_example : main generic_ioc true 7 idle ≡ (
    if open_refused idle
    then (none, idle)
    else if true
    then (some wr_num, record idle { usrs_cnt = wr_num })
    else (none, idle))
main_lem_example = main_lem generic_ioc true 7 idle (omega arith)

-- Every call succeeds but that of `kfifo_alloc`, or every call.
abbrev no_fifo : Answers
no_fifo = record {
  kmalloc = true;
  alloc_chrdev_region = pos 0;
  class_create = pos 0;
  device_create = pos 0;
  cdev_add = pos 0;
  kfifo_alloc = enomem;
  proc_create = true;
  debugfs_create_dir = entry;
  debugfs_create_file = entry;
}

no_fifo_fails : is_nonzero (chardrvs_init no_fifo).0 ≡ true
unfolding chardrvs_init
no_fifo_fails = refl

chardrvs_init_unwinds_example : held_after (chardrvs_init no_fifo) ≡ some []
chardrvs_init_unwinds_example = chardrvs_init_unwinds no_fifo no_fifo_fails
