-- ===== src/Chardrvs/Threads/Owners.antt =====
-- A held mutex of chardrvs.c has an owner, where no signal ends a sleep.
use linux_kernel_ldd.Prelude.{ℕ, ◌≡◌, refl, ap, ◌∙◌, Bool, true, false, not, ◌&&◌, arith}
use linux_kernel_ldd.Kernel.Kfifo.{Kfifo}
use linux_kernel_ldd.Chardrvs.{Dev}
use linux_kernel_ldd.Chardrvs.Threads.{
  Pc, unlocks_read, in_write, in_read, in_update, woken, update, Mem, Move, State, moves, wake_up,
  tears, Reach, here, next, at_rest, pass, sleep, copy_in, unlock_write, copy_out, unlock_read,
  lock_avail, query, set_avail, unlock_avail, lock_write, lock_read, interrupt, give_up_write,
  give_up_read,
}
use linux_kernel_ldd.Chardrvs.Threads.Exclusion.{in_write-woken, in_read-woken, in_update-woken}

-- A mutex is free, or a thread is past its lock.
pub data Owned (inside : Pc → Bool) (lock : Bool) (pc : ℕ → Pc) : Type 0 where
  free : lock ≡ false → Owned inside lock pc
  owner : (i : ℕ) → inside (pc i) ≡ true → Owned inside lock pc

-- A thread goes from `a` to `b`, past the lock or not, and the lock from `l` to `l'`.
data Accounted : Bool → Bool → Bool → Bool → Type 0 where
  idles : {b l : Bool} → Accounted false b l l
  holds : {a l l' : Bool} → Accounted a true l l'
  frees : {a b l : Bool} → Accounted a b l false

Owned-update :
    (inside : Pc → Bool) {a b l l' : Bool} (pc : ℕ → Pc) (i : ℕ) (p : Pc)
    → inside (pc i) ≡ a
    → inside p ≡ b
    → Accounted a b l l'
    → Owned inside l pc
    → Owned inside l' (update pc i p)
Owned-update inside pc i p qa qb idles (free e) = free e
Owned-update inside pc i p qa qb idles (owner j h) = owner j (ground (arith, h, qa))
Owned-update inside pc i p qa qb holds o = owner i (ground (arith, qb))
Owned-update inside pc i p qa qb frees o = free refl

Owned-woken :
    (inside : Pc → Bool) {l : Bool} (pc : ℕ → Pc)
    → ((p : Pc) → inside (woken p) ≡ inside p)
    → Owned inside l pc
    → Owned inside l (λ j. woken (pc j))
Owned-woken inside pc same (free e) = free e
Owned-woken inside pc same (owner j h) = owner j (same (pc j) ∙ h)

module _ (k : Kfifo) where
  -- A signal ends a wait for a mutex or a sleep.
  abbrev pub is_signal : {m m' : Mem k} {p p' : Pc} → Move k m p m' p' → Bool
  is_signal interrupt = true
  is_signal give_up_write = true
  is_signal give_up_read = true
  is_signal _ = false

  abbrev pub is_interrupt : {m m' : Mem k} {p p' : Pc} → Move k m p m' p' → Bool
  is_interrupt interrupt = true
  is_interrupt _ = false

  -- No sleep of the history was ended by a signal.
  unfoldable pub uninterrupted : {s t : State k} → Reach k s t → Bool
  uninterrupted here = true
  uninterrupted (next r (moves i at mv)) = not (is_interrupt mv) && uninterrupted r
  uninterrupted (next r _) = uninterrupted r

  write_accounted :
      {m m' : Mem k} {p p' : Pc} (mv : Move k m p m' p')
      → is_interrupt mv ≡ false
      → Accounted (in_write p) (in_write p') m.dev.w_f_lock m'.dev.w_f_lock
  write_accounted (lock_write e) n = holds
  write_accounted (pass e) n = holds
  write_accounted (sleep e) n = holds
  write_accounted copy_in n = holds
  write_accounted unlock_write n = frees
  write_accounted interrupt n = absurd (ground (arith, n))
  write_accounted _ n = idles

  read_accounted :
      {m m' : Mem k} {p p' : Pc}
      → Move k m p m' p'
      → Accounted (in_read p) (in_read p') m.dev.r_f_lock m'.dev.r_f_lock
  read_accounted (lock_read e) = holds
  read_accounted copy_out = holds
  read_accounted unlock_read = frees
  read_accounted _ = idles

  update_accounted :
      {m m' : Mem k} {p p' : Pc}
      → Move k m p m' p'
      → Accounted (in_update p) (in_update p') m.lock m'.lock
  update_accounted (lock_avail e) = holds
  update_accounted query = holds
  update_accounted set_avail = holds
  update_accounted unlock_avail = frees
  update_accounted _ = idles

  pub record Owners (s : State k) : Type 0 where
    pub write : Owned in_write s.mem.dev.w_f_lock s.pc
    pub read : Owned in_read s.mem.dev.r_f_lock s.pc
    pub update : Owned in_update s.mem.lock s.pc

  pub Reach-Owners :
      (d : Dev k.Fifo) {s : State k}
      → d.w_f_lock ≡ false
      → d.r_f_lock ≡ false
      → (r : Reach k (at_rest k d) s) → uninterrupted r ≡ true
      → Owners s
  unfolding uninterrupted
  Reach-Owners d free_w free_r here u = record {
    write = free free_w;
    read = free free_r;
    update = free refl;
  }
  Reach-Owners d free_w free_r (next {t} r (moves i {p' = p'} at mv)) u =
      let o = Reach-Owners d free_w free_r r (ground (arith, u)) in
      record {
        write =
            Owned-update in_write t.pc i p' (ap in_write at) refl
              (write_accounted mv (ground (arith, u))) o.write;
        read = Owned-update in_read t.pc i p' (ap in_read at) refl (read_accounted mv) o.read;
        update =
            Owned-update in_update t.pc i p' (ap in_update at) refl (update_accounted mv) o.update;
      }
  Reach-Owners d free_w free_r (next {t} r (wake_up i at)) u =
      let o = Reach-Owners d free_w free_r r u in
      record {
        write =
            Owned-update in_write _ i unlocks_read (ap (λ p. in_write (woken p)) at) refl idles
              (Owned-woken in_write t.pc in_write-woken o.write);
        read =
            Owned-update in_read _ i unlocks_read (ap (λ p. in_read (woken p)) at) refl holds
              (Owned-woken in_read t.pc in_read-woken o.read);
        update =
            Owned-update in_update _ i unlocks_read (ap (λ p. in_update (woken p)) at) refl idles
              (Owned-woken in_update t.pc in_update-woken o.update);
      }
  Reach-Owners d free_w free_r (next r (tears i j other both f)) u =
      let o = Reach-Owners d free_w free_r r u in
      record { write = o.write; read = o.read; update = o.update }
