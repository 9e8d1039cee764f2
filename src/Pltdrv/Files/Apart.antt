-- ===== src/Pltdrv/Files/Apart.antt =====
-- The open files of pltdrv_attr_dt.c, device by device: what the files of one device do is what their calls
-- do to this device alone, whatever else goes on.
use linux_kernel_ldd.Prelude.{
  ℕ, ◌<◌, ◌≡◌, refl, Bool, true, false, not, Option, none, some, List, arith, ap, ◌∙◌, ◌==◌,
  if◌then◌else◌, put_self, Bool-cases, inl, inr, ==_iff,
}
use mathlib.Core.Path.{subst}
use linux_kernel_ldd.Kernel.CharDriver.{CharDriver}
use linux_kernel_ldd.Pltdrv.Files.{
  private_data, keeps, Result, replied, Memory, freed, unset, ready, World, Call, registers,
  sets_up, uninstalls, deletes, opens, closes, writes, reads, set_up_at, uninstall_at, delete_at,
  open_fifo, write_at, read_at, write_file, read_file, exec, ℤ,
}

-- A call that reaches a device.
pub data Ask : Type 0 where
  puts : Bool → List ℕ → ℕ → Ask
  gets : Bool → ℕ → ℕ → Ask

module _ (c : CharDriver) where
  open c use {Devc, devnr}

  abbrev pub serve : Ask → Devc → Result × Devc
  serve (puts signal buf count) dev =
      let (out, bytes, dev') = c.write signal buf count dev in (replied out bytes, dev')
  serve (gets signal room count) dev =
      let (out, bytes, dev') = c.read signal room count dev in (replied out bytes, dev')

  -- The call on the device at pointer `p`, if it is one through a file of this device.
  abbrev pub ask_of : ℕ → World c → Call c → Option Ask
  ask_of p w (writes i signal buf count) =
      if keeps p (private_data i w.files) then some (puts signal buf count) else none
  ask_of p w (reads i signal room count) =
      if keeps p (private_data i w.files) then some (gets signal room count) else none
  ask_of p w _ = none

  -- No remove of the device begins.
  abbrev pub spares : ℕ → Call c → Bool
  spares p (uninstalls q) = not (p == q)
  spares p _ = true

  -- One call beside a device that is ready: it is an ask that the device serves, or it leaves the device as
  -- it is.
  abbrev pub Apart : ℕ → Devc → Option Ask → World c → Result × World c → Type 0
  Apart p dev none w (out, w') = (w'.heap p ≡ ready dev) × (p < w'.next)
  Apart p dev (some a) w (out, w') =
      (out ≡ (serve a dev).0) × (w'.heap p ≡ ready (serve a dev).1) × (p < w'.next)

  set_up_at_apart :
      (p q : ℕ) (alloc : ℤ) (dev : Devc) (found : Memory Devc) (w : World c)
      → w.heap q ≡ found
      → w.heap p ≡ ready dev
      → let w' = set_up_at c q alloc found w in (w'.heap p ≡ ready dev) × (w'.next ≡ w.next)
  set_up_at_apart p q alloc dev freed w e at = (at, refl)
  set_up_at_apart p q alloc dev (ready d) w e at = (at, refl)
  set_up_at_apart p q alloc dev (unset d) w e at = (ground (arith, e, at), refl)

  uninstall_at_apart :
      (p q : ℕ) (dev : Devc) (found : Memory Devc) (w : World c)
      → w.heap p ≡ ready dev
      → (p == q) ≡ false
      → let w' = uninstall_at c q found w in (w'.heap p ≡ ready dev) × (w'.next ≡ w.next)
  uninstall_at_apart p q dev freed w at n = (at, refl)
  uninstall_at_apart p q dev (ready d) w at n = (ground (arith, n, at), refl)
  uninstall_at_apart p q dev (unset d) w at n = (at, refl)

  delete_at_apart :
      (p q : ℕ) (dev : Devc) (found : Memory Devc) (w : World c)
      → w.heap q ≡ found
      → w.heap p ≡ ready dev
      → let w' = delete_at c q found w in (w'.heap p ≡ ready dev) × (w'.next ≡ w.next)
  delete_at_apart p q dev freed w e at = (at, refl)
  delete_at_apart p q dev (ready d) w e at = (at, refl)
  delete_at_apart p q dev (unset d) w e at = (ground (arith, e, at), refl)

  open_fifo_apart :
      (o : Option ℕ) (w : World c)
      → let w' = (open_fifo c o w).1 in (w'.heap ≡ w.heap) × (w'.next ≡ w.next)
  unfolding open_fifo
  open_fifo_apart none w = (refl, refl)
  open_fifo_apart (some q) w = (refl, refl)

  write_at_other :
      (p q : ℕ) (dev : Devc) (signal : Bool) (buf : List ℕ) (count : ℕ) (found : Memory Devc)
      (w : World c)
      → w.heap p ≡ ready dev
      → (p == q) ≡ false
      → let w' = (write_at c q found signal buf count w).1 in
        (w'.heap p ≡ ready dev) × (w'.next ≡ w.next)
  unfolding write_at
  write_at_other p q dev signal buf count freed w at n = (at, refl)
  write_at_other p q dev signal buf count (unset d) w at n = (at, refl)
  write_at_other p q dev signal buf count (ready d) w at n = (ground (arith, n, at), refl)

  write_at_own :
      (p : ℕ) (dev : Devc) (signal : Bool) (buf : List ℕ) (count : ℕ) (w : World c)
      → w.heap p ≡ ready dev
      → p < w.next
      → Apart p dev (some (puts signal buf count)) w (write_at c p (w.heap p) signal buf count w)
  unfolding write_at
  write_at_own p dev signal buf count w at lt =
      let dev' = (c.write signal buf count dev).2 in
      rw at (refl, put_self w.heap p (ready dev'), lt)

  writes-Apart :
      (p : ℕ) (dev : Devc) (signal : Bool) (buf : List ℕ) (count : ℕ) (f : Option ℕ) (w : World c)
      → w.heap p ≡ ready dev
      → p < w.next
      → Apart p dev
          (if keeps p f then some (puts signal buf count) else none)
          w
          (write_file c f signal buf count w)
  unfolding write_file write_at
  writes-Apart p dev signal buf count none w at lt = (at, lt)
  writes-Apart p dev signal buf count (some q) w at lt = elim (Bool-cases (p == q)) [
    | inl own ↦ rw own (
        subst
          (λ n.
            Apart p dev (some (puts signal buf count)) w (write_file c (some n) signal buf count w))
          ((==_iff p q).0 own) (write_at_own p dev signal buf count w at lt))
    | inr other ↦
        let (same, next) = write_at_other p q dev signal buf count (w.heap q) w at other in
        rw other (same, rw next lt)
  ]

  read_at_other :
      (p q : ℕ) (dev : Devc) (signal : Bool) (room count : ℕ) (found : Memory Devc) (w : World c)
      → w.heap p ≡ ready dev
      → (p == q) ≡ false
      → let w' = (read_at c q found signal room count w).1 in
        (w'.heap p ≡ ready dev) × (w'.next ≡ w.next)
  unfolding read_at
  read_at_other p q dev signal room count freed w at n = (at, refl)
  read_at_other p q dev signal room count (unset d) w at n = (at, refl)
  read_at_other p q dev signal room count (ready d) w at n = (ground (arith, n, at), refl)

  read_at_own :
      (p : ℕ) (dev : Devc) (signal : Bool) (room count : ℕ) (w : World c)
      → w.heap p ≡ ready dev
      → p < w.next
      → Apart p dev (some (gets signal room count)) w (read_at c p (w.heap p) signal room count w)
  unfolding read_at
  read_at_own p dev signal room count w at lt =
      let dev' = (c.read signal room count dev).2 in
      rw at (refl, put_self w.heap p (ready dev'), lt)

  reads-Apart :
      (p : ℕ) (dev : Devc) (signal : Bool) (room count : ℕ) (f : Option ℕ) (w : World c)
      → w.heap p ≡ ready dev
      → p < w.next
      → Apart p dev
          (if keeps p f then some (gets signal room count) else none)
          w
          (read_file c f signal room count w)
  unfolding read_file read_at
  reads-Apart p dev signal room count none w at lt = (at, lt)
  reads-Apart p dev signal room count (some q) w at lt = elim (Bool-cases (p == q)) [
    | inl own ↦ rw own (
        subst
          (λ n.
            Apart p dev (some (gets signal room count)) w
              (read_file c (some n) signal room count w))
          ((==_iff p q).0 own) (read_at_own p dev signal room count w at lt))
    | inr other ↦
        let (same, next) = read_at_other p q dev signal room count (w.heap q) w at other in
        rw other (same, rw next lt)
  ]

  pub exec-Apart :
      (p : ℕ) (dev : Devc) (w : World c) (call : Call c)
      → w.heap p ≡ ready dev
      → p < w.next
      → spares p call ≡ true
      → Apart p dev (ask_of p w call) w (exec c w call)
  unfolding exec
  exec-Apart p dev w (registers d) at lt s = (ground (arith, at, lt), omega arith)
  exec-Apart p dev w (sets_up q alloc) at lt s =
      let (same, next) = set_up_at_apart p q alloc dev (w.heap q) w refl at in (same, rw next lt)
  exec-Apart p dev w (uninstalls q) at lt s =
      let (same, next) = uninstall_at_apart p q dev (w.heap q) w at (ground (arith, s)) in
      (same, rw next lt)
  exec-Apart p dev w (deletes q) at lt s =
      let (same, next) = delete_at_apart p q dev (w.heap q) w refl at in (same, rw next lt)
  exec-Apart p dev w (opens n) at lt s =
      let (same, next) = open_fifo_apart (w.cdevs n) w in
      (ap (λ (h : ℕ → Memory Devc). h p) same ∙ at, rw next lt)
  exec-Apart p dev w (closes i) at lt s = (at, lt)
  exec-Apart p dev w (writes i signal buf count) at lt s =
      writes-Apart p dev signal buf count (private_data i w.files) w at lt
  exec-Apart p dev w (reads i signal room count) at lt s =
      reads-Apart p dev signal room count (private_data i w.files) w at lt
