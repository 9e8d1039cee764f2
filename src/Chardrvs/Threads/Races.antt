-- ===== src/Chardrvs/Threads/Races.antt =====
-- What can go wrong in chardrvs.c between two threads.
use linux_kernel_ldd.Prelude.{
  ℕ, ◌-◌, ◌+◌, ◌<◌, ◌≤◌, ◌≡◌, refl, false, arith, ap, ◌∙◌, List, ◌++◌, length, take, min,
}
use mathlib.Core.Path.{ap₂}
use linux_kernel_ldd.Kernel.Kfifo.{Kfifo}
use linux_kernel_ldd.Kernel.Moves.{put_moves, join_moves, get_moves}
use linux_kernel_ldd.Chardrvs.{Dev}
use linux_kernel_ldd.Chardrvs.Threads.{
  ask_write, ask_read, lock_read, sleep, copy_out, wake_up, unlock_read, lock_avail, query,
  set_avail, unlock_avail, sleeps, outside, unlocks_write, State, moves, Reach, here, next, at_rest,
  lock_write, pass, copy_in, unlock_write,
}

module _ (k : Kfifo) where
  open k use {Fifo, contents, kfifo_avail}

  -- The device when the first writer has unlocked `w_f_lock` and not yet updated `avail`.
  abbrev after_first : Dev Fifo → List ℕ → Dev Fifo
  after_first d a = record d {
    myfifo = (k.kfifo_from_user d.myfifo a (length a)).fifo;
    w_f_lock = false;
  }

  -- Two threads write to a device at rest with `w_f_lock` free and with the room in its FIFO as `avail`,
  -- each from a good buffer a message for which there is room: the second one can pass its test before the first one has updated `avail`, and
  -- then only as much of its message goes in as the first one has left room for.
  pub stale_room :
      (d : Dev Fifo) (a b : List ℕ)
      → d.w_f_lock ≡ false
      → kfifo_avail d.myfifo ≡ d.avail
      → length a ≤ d.avail
      → length b ≤ d.avail
      → (s : State k) × Reach k (at_rest k d) s
        × (s.pc 1 ≡ unlocks_write)
        × (s.mem.taken ≡ a ++ take (min (length b) (d.avail - length a)) b)
  stale_room d a b free room fits_a fits_b =
      let first = join_moves k d.myfifo a (omega arith) in
      let second = put_moves k (after_first d a).myfifo b in
      let rest : min (length b) (kfifo_avail (after_first d a).myfifo)
          ≡ min (length b) (d.avail - length a) =
        omega (arith, first.1) in
      let copied =
        next
          (next
            (next (next here (moves 0 refl (ask_write a (length a))))
              (moves 0 refl (lock_write free)))
            (moves 0 refl (pass fits_a)))
          (moves 0 refl copy_in) in
      let entered =
        next
          (next (next copied (moves 0 refl unlock_write)) (moves 1 refl (ask_write b (length b))))
          (moves 1 refl (lock_write refl)) in
      (
        _,
        next (next entered (moves 1 refl (pass fits_b))) (moves 1 refl copy_in),
        refl,
        ap₂ ◌++◌ first.2 (second.1 ∙ ap (λ n. take n b) rest),
      )

  -- On a device at rest with both mutexes free and with the room in its FIFO as `avail`, a writer sleeps for want of room, and a
  -- reader takes out enough for its message: the writer can try again between the wake-up and the
  -- update of `avail`, and then it sleeps on, with room for its message and no other thread at work.
  pub lost_wakeup :
      (d : Dev Fifo) (buf : List ℕ) (count wanted : ℕ)
      → d.w_f_lock ≡ false
      → d.r_f_lock ≡ false
      → kfifo_avail d.myfifo ≡ d.avail
      → d.avail < count
      → count ≤ d.avail + min wanted (length (contents d.myfifo))
      → (s : State k) × Reach k (at_rest k d) s
        × (s.pc 0 ≡ sleeps buf count)
        × ((j : ℕ) → s.pc (j + 1) ≡ outside)
        × (count ≤ s.mem.dev.avail)
  lost_wakeup d buf count wanted free_w free_r room full enough =
      let slept =
        next
          (next (next here (moves 0 refl (ask_write buf count))) (moves 0 refl (lock_write free_w)))
          (moves 0 refl (sleep full)) in
      let got =
        next
          (next (next slept (moves 1 refl (ask_read wanted wanted)))
            (moves 1 refl (lock_read free_r)))
          (moves 1 refl copy_out) in
      let again = next (next got (wake_up 1 refl)) (moves 0 refl (sleep full)) in
      let read = next (next again (moves 1 refl unlock_read)) (moves 1 refl (lock_avail refl)) in
      let set = next (next read (moves 1 refl query)) (moves 1 refl set_avail) in
      (
        _,
        next set (moves 1 refl unlock_avail),
        refl,
        (λ j. ground arith),
        omega (arith, (get_moves k d.myfifo wanted).2),
      )
