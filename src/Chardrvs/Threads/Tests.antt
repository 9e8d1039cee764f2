-- ===== src/Chardrvs/Threads/Tests.antt =====
-- The theorems about threads in chardrvs.c at work on small devices.
use linux_kernel_ldd.Prelude.{
  if◌then◌else◌, ◌==◌, ℕ, ◌+◌, ◌≤◌, ◌≡◌, refl, true, false, List, [], ◌∷◌, ◌++◌, arith, take, min,
  ◌-◌,
}
use linux_kernel_ldd.Kernel.Kfifo.{Store, store_kfifo}
use linux_kernel_ldd.Chardrvs.{Dev, poll_dev, pollout}
use linux_kernel_ldd.Chardrvs.Threads.{
  ask_write, ask_read, outside, sleep, interrupt, sleeps, unlocks_write, State, moves, wake_up,
  Reach, here, next, at_rest, lock_write, pass, lock_read, copy_out, unlock_read, lock_avail, query,
  set_avail, unlock_avail,
}
use linux_kernel_ldd.Chardrvs.Threads.Exclusion.{collide, mutual_exclusion}
use linux_kernel_ldd.Chardrvs.Threads.Conserve.{threads_conserve}
use linux_kernel_ldd.Chardrvs.Threads.Rooms.{avail_settles}
use linux_kernel_ldd.Chardrvs.Threads.Races.{lost_wakeup, stale_room}
use linux_kernel_ldd.Chardrvs.Threads.Owners.{uninterrupted}
use linux_kernel_ldd.Chardrvs.Threads.Progress.{Goes, never_deadlocks}
use linux_kernel_ldd.Chardrvs.Threads.Lost.{IsJammed, mutex_lost}

-- Four bytes in all, one of them taken.
abbrev quiet : Dev Store
quiet = record {
  myfifo = record { bytes = 1 ∷ []; room = 3 };
  r_f_lock = false;
  w_f_lock = false;
  usrs_cnt = 2;
  avail = 3;
  ref_cntr = 1;
}

abbrev message : List ℕ
message = 7 ∷ 8 ∷ []

-- Thread 4 writes while thread 9 reads.
abbrev both : (s : State store_kfifo) × Reach store_kfifo (at_rest store_kfifo quiet) s
both = (
  _,
  next
      (next
        (next
          (next
            (next (next here (moves 4 refl (ask_write message 2))) (moves 4 refl (lock_write refl)))
            (moves 9 refl (ask_read 5 5)))
          (moves 9 refl (lock_read refl)))
        (moves 4 refl (pass (omega arith))))
      (moves 9 refl copy_out),
)

mutual_exclusion_example : collide (both.0.pc 4) (both.0.pc 9) ≡ false
mutual_exclusion_example = mutual_exclusion store_kfifo quiet 4 9 refl both.1

threads_conserve_example :
    quiet.myfifo.bytes ++ both.0.mem.taken ≡ both.0.mem.given ++ both.0.mem.dev.myfifo.bytes
threads_conserve_example = threads_conserve store_kfifo quiet both.1

-- The read ends, with the write in front of its copy.
abbrev one_left : (s : State store_kfifo) × Reach store_kfifo (at_rest store_kfifo quiet) s
one_left =
    let left = next (next both.1 (wake_up 9 refl)) (moves 9 refl unlock_read) in
    let set =
      next (next (next left (moves 9 refl (lock_avail refl))) (moves 9 refl query))
        (moves 9 refl set_avail) in
    (_, next set (moves 9 refl unlock_avail))

avail_settles_example :
    let dev = one_left.0.mem.dev in
    (dev.avail ≡ dev.myfifo.room) × (poll_dev dev ≡ (if dev.myfifo.room == 0 then 0 else pollout))
avail_settles_example = avail_settles store_kfifo quiet refl one_left.1 (λ i. ground arith)

lost_wakeup_example :
    (s : State store_kfifo) × Reach store_kfifo (at_rest store_kfifo quiet) s
    × (s.pc 0 ≡ sleeps message 4)
    × ((j : ℕ) → s.pc (j + 1) ≡ outside)
    × (4 ≤ s.mem.dev.avail)
lost_wakeup_example =
    lost_wakeup store_kfifo quiet message 4 1 refl refl refl (omega arith) (omega arith)

stale_room_example :
    (s : State store_kfifo) × Reach store_kfifo (at_rest store_kfifo quiet) s
    × (s.pc 1 ≡ unlocks_write)
    × (s.mem.taken ≡ message ++ take (min 2 (3 - 2)) (5 ∷ 6 ∷ []))
stale_room_example =
    stale_room store_kfifo quiet message (5 ∷ 6 ∷ []) refl refl (omega arith) (omega arith)

-- A second writer waits for the mutex of the first one, which sleeps for want of room.
abbrev queued : (s : State store_kfifo) × Reach store_kfifo (at_rest store_kfifo quiet) s
queued =
    let slept =
      next (next (next here (moves 4 refl (ask_write message 5))) (moves 4 refl (lock_write refl)))
        (moves 4 refl (sleep (omega arith))) in
    (_, next slept (moves 7 refl (ask_write message 1)))

queued_uninterrupted : uninterrupted store_kfifo queued.1 ≡ true
unfolding uninterrupted
queued_uninterrupted = refl

never_deadlocks_example : Goes store_kfifo queued.0 (queued.0.pc 7)
never_deadlocks_example =
    never_deadlocks store_kfifo quiet 7 refl refl queued.1 queued_uninterrupted refl

-- A message of five bytes waits for room, until a signal comes.
abbrev interrupted : (s : State store_kfifo) × Reach store_kfifo (at_rest store_kfifo quiet) s
interrupted =
    let slept =
      next (next (next here (moves 4 refl (ask_write message 5))) (moves 4 refl (lock_write refl)))
        (moves 4 refl (sleep (omega arith))) in
    (_, next slept (moves 4 refl interrupt))

interrupted-IsJammed : IsJammed interrupted.0.mem.dev.w_f_lock interrupted.0.pc
interrupted-IsJammed = record { held = refl; nobody = λ i. ground arith }

-- A read does not help.
abbrev read_later : (t : State store_kfifo) × Reach store_kfifo interrupted.0 t
read_later = (
  _,
  next (next (next here (moves 9 refl (ask_read 5 5))) (moves 9 refl (lock_read refl)))
      (moves 9 refl copy_out),
)

mutex_lost_example :
    IsJammed read_later.0.mem.dev.w_f_lock read_later.0.pc
    × (read_later.0.mem.taken ≡ interrupted.0.mem.taken)
mutex_lost_example = mutex_lost store_kfifo interrupted.0 interrupted-IsJammed read_later.1
