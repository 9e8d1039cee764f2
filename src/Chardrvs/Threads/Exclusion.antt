-- ===== src/Chardrvs/Threads/Exclusion.antt =====
-- The three mutexes of chardrvs.c, while threads run its handlers in any order.
use linux_kernel_ldd.Prelude.{
  ℕ, ◌≡◌, refl, Bool, ◌&&◌, ◌||◌, true, false, arith, ◌==◌, sym, ap, ◌∙◌,
}
use linux_kernel_ldd.Kernel.Kfifo.{Kfifo}
use linux_kernel_ldd.Chardrvs.{Dev}
use linux_kernel_ldd.Chardrvs.Threads.{
  Pc, clash, copies_in, copies_out, outside, sleeps, lock_write, lock_read, interrupt, unlock_write,
  unlock_read, lock_avail, unlock_avail, in_write, in_read, in_update, woken, unlocks_read, update,
  Mem, Move, State, Step, moves, wake_up, tears, Reach, here, next, at_rest,
}

-- Two threads hold one mutex.
abbrev pub collide : Pc → Pc → Bool
collide p q = in_write p && in_write q || in_read p && in_read q || in_update p && in_update q

-- The lock is held while a thread is inside, and two threads never are.
pub record Exclusive (inside : Pc → Bool) (lock : Bool) (pc : ℕ → Pc) : Type 0 where
  pub held : (i : ℕ) → inside (pc i) ≡ true → lock ≡ true
  pub alone : (i j : ℕ) → inside (pc i) ≡ true → inside (pc j) ≡ true → i ≡ j

-- A thread goes from `a` to `b`, inside or not, and the lock from `l` to `l'`.
data Allowed : Bool → Bool → Bool → Bool → Type 0 where
  stays : {a l : Bool} → Allowed a a l l
  leaves : {l l' : Bool} → Allowed true false l l'
  enters : {a l : Bool} → l ≡ false → Allowed a true l true

Exclusive-update :
    (inside : Pc → Bool) {a b l l' : Bool} (pc : ℕ → Pc) (i : ℕ) (p : Pc)
    → Exclusive inside l pc
    → inside (pc i) ≡ a
    → inside p ≡ b
    → Allowed a b l l'
    → Exclusive inside l' (update pc i p)
Exclusive-update inside pc i p e qa qb stays = record {
  held = λ j h. ground (arith, e.held j);
  alone = λ j j' h h'. ground (arith, e.alone j j', e.alone i j, e.alone i j');
}
Exclusive-update inside pc i p e qa qb leaves = record {
  held = λ j h. ground (arith, e.alone i j);
  alone = λ j j' h h'. ground (arith, e.alone j j', e.alone i j, e.alone i j');
}
Exclusive-update inside pc i p e qa qb (enters free) = record {
  held = λ j h. refl;
  alone = λ j j' h h'. ground (arith, free, e.held j, e.held j');
}

Exclusive-woken :
    (inside : Pc → Bool) {l : Bool} (pc : ℕ → Pc)
    → ((p : Pc) → inside (woken p) ≡ inside p)
    → Exclusive inside l pc
    → Exclusive inside l (λ j. woken (pc j))
Exclusive-woken inside pc same e = record {
  held = λ j h. e.held j (sym (same (pc j)) ∙ h);
  alone = λ i j h h'. e.alone i j (sym (same (pc i)) ∙ h) (sym (same (pc j)) ∙ h');
}

pub in_write-woken : (p : Pc) → in_write (woken p) ≡ in_write p
in_write-woken (sleeps buf count) = refl
in_write-woken _ = refl

pub in_read-woken : (p : Pc) → in_read (woken p) ≡ in_read p
in_read-woken (sleeps buf count) = refl
in_read-woken _ = refl

pub in_update-woken : (p : Pc) → in_update (woken p) ≡ in_update p
in_update-woken (sleeps buf count) = refl
in_update-woken _ = refl

clash-collide : (p q : Pc) → clash p q ≡ true → collide p q ≡ true
clash-collide (copies_in buf count) q h = ground (arith, h)
clash-collide (copies_out room count) q h = ground (arith, h)
clash-collide outside q h = absurd (ground (arith, h))
clash-collide _ q h = absurd (ground (arith, h))

module _ (k : Kfifo) where
  write_allowed :
      {m m' : Mem k} {p p' : Pc}
      → Move k m p m' p'
      → Allowed (in_write p) (in_write p') m.dev.w_f_lock m'.dev.w_f_lock
  write_allowed (lock_write free) = enters free
  write_allowed interrupt = leaves
  write_allowed unlock_write = leaves
  write_allowed _ = stays

  read_allowed :
      {m m' : Mem k} {p p' : Pc}
      → Move k m p m' p'
      → Allowed (in_read p) (in_read p') m.dev.r_f_lock m'.dev.r_f_lock
  read_allowed (lock_read free) = enters free
  read_allowed unlock_read = leaves
  read_allowed _ = stays

  update_allowed :
      {m m' : Mem k} {p p' : Pc}
      → Move k m p m' p'
      → Allowed (in_update p) (in_update p') m.lock m'.lock
  update_allowed (lock_avail free) = enters free
  update_allowed unlock_avail = leaves
  update_allowed _ = stays

  pub record Locks (s : State k) : Type 0 where
    pub write : Exclusive in_write s.mem.dev.w_f_lock s.pc
    pub read : Exclusive in_read s.mem.dev.r_f_lock s.pc
    pub update : Exclusive in_update s.mem.lock s.pc

  Step-Locks : {s t : State k} → Step k s t → Locks s → Locks t
  Step-Locks {s} (moves i {p' = p'} at mv) l = record {
    write = Exclusive-update in_write s.pc i p' l.write (ap in_write at) refl (write_allowed mv);
    read = Exclusive-update in_read s.pc i p' l.read (ap in_read at) refl (read_allowed mv);
    update =
        Exclusive-update in_update s.pc i p' l.update (ap in_update at) refl (update_allowed mv);
  }
  Step-Locks {s} (wake_up i at) l = record {
    write =
        Exclusive-update in_write _ i unlocks_read
          (Exclusive-woken in_write s.pc in_write-woken l.write) (ap (λ p. in_write (woken p)) at)
          refl stays;
    read =
        Exclusive-update in_read _ i unlocks_read
          (Exclusive-woken in_read s.pc in_read-woken l.read) (ap (λ p. in_read (woken p)) at) refl
          stays;
    update =
        Exclusive-update in_update _ i unlocks_read
          (Exclusive-woken in_update s.pc in_update-woken l.update)
          (ap (λ p. in_update (woken p)) at) refl stays;
  }
  Step-Locks (tears i j other both f) l = record {
    write = l.write;
    read = l.read;
    update = l.update;
  }

  -- No two copies in, and no two copies out, go on at once.
  pub never_clash :
      (s : State k) (i j : ℕ) → Locks s → (i == j) ≡ false → clash (s.pc i) (s.pc j) ≡ false
  never_clash s i j l other = ground (
    arith,
    l.write.alone i j,
    l.read.alone i j,
    l.update.alone i j,
    clash-collide (s.pc i) (s.pc j),
  )

  -- No thread uses a device at rest.
  none_inside :
      (inside : Pc → Bool) (l : Bool) → inside outside ≡ false → Exclusive inside l (λ i. outside)
  none_inside inside l out = record {
    held = λ i h. ground (arith, out);
    alone = λ i j h h'. ground (arith, out);
  }

  pub Reach-Locks : (d : Dev k.Fifo) {s : State k} → Reach k (at_rest k d) s → Locks s
  Reach-Locks d here = record {
    write = none_inside in_write d.w_f_lock refl;
    read = none_inside in_read d.r_f_lock refl;
    update = none_inside in_update false refl;
  }
  Reach-Locks d (next r st) = Step-Locks st (Reach-Locks d r)

  -- Whatever threads do from a device at rest, in any order: two threads are never at one time between
  -- the lock and the unlock of one mutex.
  pub mutual_exclusion :
      (d : Dev k.Fifo) {s : State k} (i j : ℕ)
      → (i == j) ≡ false
      → Reach k (at_rest k d) s
      → collide (s.pc i) (s.pc j) ≡ false
  mutual_exclusion d i j other r =
      let l = Reach-Locks d r in
      ground (arith, l.write.alone i j, l.read.alone i j, l.update.alone i j)
