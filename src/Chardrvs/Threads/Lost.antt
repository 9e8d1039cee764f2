-- ===== src/Chardrvs/Threads/Lost.antt =====
-- chardrvs.c after a signal has ended a sleep of chardrvs_write_fifo.
use linux_kernel_ldd.Prelude.{ℕ, ◌≡◌, refl, sym, ap, ◌∙◌, Bool, true, false, arith}
use linux_kernel_ldd.Kernel.Kfifo.{Kfifo}
use linux_kernel_ldd.Chardrvs.Threads.{
  Pc, in_write, woken, Mem, Move, State, Step, moves, wake_up, Reach, here, next, lock_write,
  lock_read, ask_write, ask_read, give_up_write, give_up_read, tears, copy_out, unlock_read,
  lock_avail, query, set_avail, unlock_avail,
}

-- `w_f_lock` is held and no thread is past its lock.
pub record IsJammed (lock : Bool) (pc : ℕ → Pc) : Type 0 where
  pub held : lock ≡ true
  pub nobody : (i : ℕ) → in_write (pc i) ≡ false

module _ (k : Kfifo) where
  -- What a thread that is not in a write does then.
  record Spares (m m' : Mem k) (p' : Pc) : Type 0 where
    held : m'.dev.w_f_lock ≡ m.dev.w_f_lock
    out : in_write p' ≡ false
    same : m'.taken ≡ m.taken

  Move-Spares :
      {m m' : Mem k} {p p' : Pc}
      → Move k m p m' p'
      → m.dev.w_f_lock ≡ true
      → in_write p ≡ false
      → Spares m m' p'
  Move-Spares (lock_write free) h q = absurd (ground (arith, free, h))
  Move-Spares (lock_read free) h q = record { held = refl; out = refl; same = refl }
  Move-Spares (ask_write buf count) h q = record { held = refl; out = refl; same = refl }
  Move-Spares give_up_write h q = record { held = refl; out = refl; same = refl }
  Move-Spares (ask_read room count) h q = record { held = refl; out = refl; same = refl }
  Move-Spares give_up_read h q = record { held = refl; out = refl; same = refl }
  Move-Spares copy_out h q = record { held = refl; out = refl; same = refl }
  Move-Spares unlock_read h q = record { held = refl; out = refl; same = refl }
  Move-Spares (lock_avail free) h q = record { held = refl; out = refl; same = refl }
  Move-Spares query h q = record { held = refl; out = refl; same = refl }
  Move-Spares set_avail h q = record { held = refl; out = refl; same = refl }
  Move-Spares unlock_avail h q = record { held = refl; out = refl; same = refl }
  Move-Spares _ h q = absurd (ground (arith, q))

  in_write-woken : (p : Pc) → in_write p ≡ false → in_write (woken p) ≡ false
  in_write-woken p h = ground (arith, h)

  abbrev After : State k → State k → Type 0
  After s t = IsJammed t.mem.dev.w_f_lock t.pc × (t.mem.taken ≡ s.mem.taken)

  Step-IsJammed : {s t : State k} → Step k s t → IsJammed s.mem.dev.w_f_lock s.pc → After s t
  Step-IsJammed {s} (moves i at mv) l =
      let sp = Move-Spares mv l.held (sym (ap in_write at) ∙ l.nobody i) in
      (
        record { held = sp.held ∙ l.held; nobody = λ j. ground (arith, sp.out, l.nobody j) },
        sp.same,
      )
  Step-IsJammed {s} (wake_up i at) l = (
    record { held = l.held; nobody = λ j. ground (arith, in_write-woken (s.pc j), l.nobody j) },
    refl,
  )
  Step-IsJammed (tears i j other both f) l = (record { held = l.held; nobody = l.nobody }, refl)

  -- Where `w_f_lock` is held and no thread is in a write, as an interrupted sleep leaves it, no write ever
  -- starts again, whatever threads do: the mutex stays held and no byte goes in any more.
  pub mutex_lost :
      (s : State k) {t : State k}
      → IsJammed s.mem.dev.w_f_lock s.pc
      → Reach k s t
      → IsJammed t.mem.dev.w_f_lock t.pc × (t.mem.taken ≡ s.mem.taken)
  mutex_lost s l here = (l, refl)
  mutex_lost s l (next r st) =
      let before = mutex_lost s l r in
      let after = Step-IsJammed st before.0 in (after.0, after.1 ∙ before.1)
