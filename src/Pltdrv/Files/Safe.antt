-- ===== src/Pltdrv/Files/Safe.antt =====
-- When no call of a history of pltdrv_attr_dt.c uses memory that is not there, and when one does.
use linux_kernel_ldd.Prelude.{
  ℕ, ◌≡◌, refl, Bool, true, false, Option, none, some, List, [], ◌∷◌, arith, ap, ◌∙◌, sym, ℤ,
  is_nonzero, if_lem, length, ◌++◌, put_self,
}
use linux_kernel_ldd.Kernel.CharDriver.{CharDriver}
use linux_kernel_ldd.Pltdrv.Files.{
  private_data, used, Result, done, freed_used, unset_used, is_fault, Memory, freed, unset, ready,
  World, Call, registers, sets_up, uninstalls, deletes, opens, closes, writes, reads, registered,
  set_up, set_up_at, uninstall_at, open_fifo, write_at, read_at, write_file, read_file, exec,
  faults, considerate, all_considerate, put,
}
use linux_kernel_ldd.Pltdrv.Files.Steps.{
  private_data-last, opens_lem, writes_lem, reads_lem, uninstalls-deletes,
}
use linux_kernel_ldd.Pltdrv.Files.Live.{
  used-private_data, is_ready, is_held, has_number, IsLive, registered-IsLive, stays-IsLive,
  delete_at-IsLive, open_fifo-IsLive, closes-IsLive,
}

module _ (c : CharDriver) where
  open c use {Devc, devnr}

  set_up_held : (r : ℤ × Devc) (n : ℕ) → devnr r.1 ≡ n → has_number c n (set_up c r) ≡ true
  set_up_held (ret, dev) n e =
      if_lem (λ m. has_number c n m ≡ true) (is_nonzero ret) (λ h. ground (arith, e))
        (λ h. ground (arith, e))

  set_up_at-IsLive :
      (p : ℕ) (alloc : ℤ) (found : Memory Devc) (w : World c)
      → w.heap p ≡ found
      → IsLive c w
      → IsLive c (set_up_at c p alloc found w)
  set_up_at-IsLive p alloc freed w at l = l
  set_up_at-IsLive p alloc (ready dev) w at l = l
  set_up_at-IsLive p alloc (unset dev) w at l =
      stays-IsLive c p (set_up c (c.setup alloc dev)) w
        (λ h. ground (arith, l.files p h, ap is_ready at)) (ap is_held at)
        (λ n h. set_up_held (c.setup alloc dev) n (c.devnr-setup alloc dev ∙ ground (arith, at, h)))
        l

  uninstall_at-IsLive :
      (p : ℕ) (found : Memory Devc) (w : World c)
      → w.heap p ≡ found
      → used p w.files ≡ false
      → IsLive c w
      → IsLive c (uninstall_at c p found w)
  uninstall_at-IsLive p freed w at unused l = l
  uninstall_at-IsLive p (unset dev) w at unused l = l
  uninstall_at-IsLive p (ready dev) w at unused l =
      stays-IsLive c p (unset dev) w (λ h. ground (arith, h, unused)) (ap is_held at)
        (λ n h. sym (ap (has_number c n) at) ∙ h) l

  -- A call that uses no memory that is not there and keeps the files live.
  abbrev Good : Result × World c → Type 0
  Good out = (is_fault out.0 ≡ false) × IsLive c out.1

  write_at-IsLive :
      (p : ℕ) (found : Memory Devc) (signal : Bool) (buf : List ℕ) (count : ℕ) (w : World c)
      → w.heap p ≡ found
      → is_ready found ≡ true
      → IsLive c w
      → Good (write_at c p found signal buf count w)
  unfolding write_at
  write_at-IsLive p freed signal buf count w at live l = absurd (ground (arith, live))
  write_at-IsLive p (unset dev) signal buf count w at live l = absurd (ground (arith, live))
  write_at-IsLive p (ready dev) signal buf count w at live l = (
    refl,
    stays-IsLive c p (ready (c.write signal buf count dev).2) w (λ h. refl) (ap is_held at)
        (λ n h. ground (arith, at, h, c.devnr-write signal buf count dev)) l,
  )

  read_at-IsLive :
      (p : ℕ) (found : Memory Devc) (signal : Bool) (room count : ℕ) (w : World c)
      → w.heap p ≡ found
      → is_ready found ≡ true
      → IsLive c w
      → Good (read_at c p found signal room count w)
  unfolding read_at
  read_at-IsLive p freed signal room count w at live l = absurd (ground (arith, live))
  read_at-IsLive p (unset dev) signal room count w at live l = absurd (ground (arith, live))
  read_at-IsLive p (ready dev) signal room count w at live l = (
    refl,
    stays-IsLive c p (ready (c.read signal room count dev).2) w (λ h. refl) (ap is_held at)
        (λ n h. ground (arith, at, h, c.devnr-read signal room count dev)) l,
  )

  write_file-IsLive :
      (i : ℕ) (f : Option ℕ) (signal : Bool) (buf : List ℕ) (count : ℕ) (w : World c)
      → private_data i w.files ≡ f
      → IsLive c w
      → Good (write_file c f signal buf count w)
  unfolding write_file
  write_file-IsLive i none signal buf count w at l = (refl, l)
  write_file-IsLive i (some p) signal buf count w at l =
      write_at-IsLive p (w.heap p) signal buf count w refl
        (l.files p (used-private_data p i w.files at)) l

  read_file-IsLive :
      (i : ℕ) (f : Option ℕ) (signal : Bool) (room count : ℕ) (w : World c)
      → private_data i w.files ≡ f
      → IsLive c w
      → Good (read_file c f signal room count w)
  unfolding read_file
  read_file-IsLive i none signal room count w at l = (refl, l)
  read_file-IsLive i (some p) signal room count w at l =
      read_at-IsLive p (w.heap p) signal room count w refl
        (l.files p (used-private_data p i w.files at)) l

  open_fifo_lem : (found : Option ℕ) (w : World c) → is_fault (open_fifo c found w).0 ≡ false
  unfolding open_fifo
  open_fifo_lem none w = refl
  open_fifo_lem (some p) w = refl

  exec-IsLive :
      (w : World c) (call : Call c)
      → considerate c w call ≡ true
      → IsLive c w
      → Good (exec c w call)
  unfolding exec
  exec-IsLive w (registers dev) h l = (refl, registered-IsLive c dev w l)
  exec-IsLive w (sets_up p alloc) h l = (refl, set_up_at-IsLive p alloc (w.heap p) w refl l)
  exec-IsLive w (uninstalls p) h l =
      (refl, uninstall_at-IsLive p (w.heap p) w refl (ground (arith, h)) l)
  exec-IsLive w (deletes p) h l = (refl, delete_at-IsLive c p (w.heap p) w refl l)
  exec-IsLive w (opens n) h l =
      (open_fifo_lem (w.cdevs n) w, open_fifo-IsLive c n (w.cdevs n) w refl (ground (arith, h)) l)
  exec-IsLive w (closes i) h l = (refl, closes-IsLive c i w l)
  exec-IsLive w (writes i signal buf count) h l = write_file-IsLive i _ signal buf count w refl l
  exec-IsLive w (reads i signal room count) h l = read_file-IsLive i _ signal room count w refl l

  -- Where every open file leads to a device that is ready, every node to one of its number, and the next
  -- pointer is above those of all devices: if no remove begins while a file of its device is open, and no
  -- open comes while a device is registered without its FIFO, no call of any history uses memory that is
  -- freed or a FIFO that has none.
  pub files_stay_live :
      (w : World c) (calls : List (Call c))
      → IsLive c w
      → all_considerate c w calls ≡ true
      → faults c w calls ≡ false
  unfolding faults all_considerate
  files_stay_live w [] l h = refl
  files_stay_live w (call ∷ calls) l h =
      let good = exec-IsLive w call (ground (arith, h)) l in
      ground (arith, good.0, files_stay_live (exec c w call).1 calls good.1)

  -- Nothing holds the remove of a ready device back while a file of it is open: a write and a read
  -- through that file then use freed memory.
  pub removed_under_file :
      (w : World c) (i p : ℕ) (dev : Devc) (signal : Bool) (buf : List ℕ) (room count : ℕ)
      → private_data i w.files ≡ some p
      → w.heap p ≡ ready dev
      → let w' = (exec c (exec c w (uninstalls p)).1 (deletes p)).1 in
        ((exec c w' (writes i signal buf count)).0 ≡ freed_used)
        × ((exec c w' (reads i signal room count)).0 ≡ freed_used)
  unfolding write_at read_at
  removed_under_file w i p dev signal buf room count open_file at =
      let w' : World c = record w {
        heap = put (put w.heap p (unset dev)) p freed;
        cdevs = put w.cdevs (devnr dev) none;
      } in
      let gone = put_self (put w.heap p (unset dev)) p freed in
      let removed = uninstalls-deletes c w p dev at in
      (
        ap (λ v. (exec c v (writes i signal buf count)).0) removed
            ∙ ap (λ (r : Result × World c). r.0)
                (writes_lem c w' i p freed signal buf count open_file gone),
        ap (λ v. (exec c v (reads i signal room count)).0) removed
            ∙ ap (λ (r : Result × World c). r.0)
                (reads_lem c w' i p freed signal room count open_file gone),
      )

  -- A probe registers its device before it sets up the FIFO: an open that comes in between succeeds, and a
  -- write and a read through its file use a FIFO that has no memory.
  pub opened_too_early :
      (w : World c) (dev : Devc) (signal : Bool) (buf : List ℕ) (room count : ℕ)
      → let i : ℕ = length w.files in
        let (out, w') = exec c (exec c w (registers dev)).1 (opens (devnr dev)) in
        (out ≡ done)
        × ((exec c w' (writes i signal buf count)).0 ≡ unset_used)
        × ((exec c w' (reads i signal room count)).0 ≡ unset_used)
  unfolding exec write_at read_at
  opened_too_early w dev signal buf room count =
      let i : ℕ = length w.files in
      let w1 = registered c dev w in
      let w' : World c = record w1 { files = w.files ++ (some w.next ∷ []) } in
      let opened = opens_lem c w1 (devnr dev) w.next (put_self w.cdevs (devnr dev) (some w.next)) in
      let file = private_data-last w.files (some w.next) in
      let bare = put_self w.heap w.next (unset dev) in
      (
        ap (λ (r : Result × World c). r.0) opened,
        ap (λ (r : Result × World c). (exec c r.1 (writes i signal buf count)).0) opened
            ∙ ap (λ (r : Result × World c). r.0)
                (writes_lem c w' i w.next (unset dev) signal buf count file bare),
        ap (λ (r : Result × World c). (exec c r.1 (reads i signal room count)).0) opened
            ∙ ap (λ (r : Result × World c). r.0)
                (reads_lem c w' i w.next (unset dev) signal room count file bare),
      )
