-- ===== src/Pltdrv/Files.antt =====
-- The open files of pltdrv_attr_dt.c, and of pltdrv.c and pltdrv_attr.c, which have the same code for them:
-- `pltdrv_open_fifo`, `pltdrv_release_fifo`, and reads and writes through the pointer that an open keeps,
-- while devices come and go. A probe and a remove are cut where they make a device available.
pub mod Steps
pub mod Live
pub mod Safe
pub mod Shared
pub mod First
pub mod Apart
pub mod Histories
pub mod Pipes
mod Tests
use linux_kernel_ldd.Prelude.{
  ℕ, zero, suc, Bool, true, false, not, ◌||◌, ◌&&◌, Option, none, some, List, [], ◌∷◌, ◌++◌, ◌==◌,
  if◌then◌else◌, ℤ, is_nonzero, put,
}
use linux_kernel_ldd.Kernel.CharDriver.{CharDriver}
use linux_kernel_ldd.Kernelnewbies.{Reply}

-- What an open file keeps in `private_data`; nothing where the number is of no open file.
abbrev pub private_data : ℕ → List (Option ℕ) → Option ℕ
private_data i [] = none
private_data zero (f ∷ files) = f
private_data (suc i) (f ∷ files) = private_data i files

abbrev pub closed : ℕ → List (Option ℕ) → List (Option ℕ)
closed i [] = []
closed zero (f ∷ files) = none ∷ files
closed (suc i) (f ∷ files) = f ∷ closed i files

abbrev pub keeps : ℕ → Option ℕ → Bool
keeps p none = false
keeps p (some q) = p == q

-- A file that keeps the pointer is open.
pub used : ℕ → List (Option ℕ) → Bool
used p [] = false
used p (f ∷ files) = keeps p f || used p files

pub data Result : Type 0 where
  done : Result
  no_device : Result
  bad_file : Result
  replied : Reply → List ℕ → Result
  -- Memory that was freed is used, or a FIFO that has no memory.
  freed_used : Result
  unset_used : Result

abbrev pub is_fault : Result → Bool
is_fault freed_used = true
is_fault unset_used = true
is_fault _ = false

-- The memory of a device: freed, or not used yet; or the device, registered while its FIFO has no memory,
-- or ready.
pub data Memory (D : Type 0) : Type 0 where
  freed : Memory D
  unset : D → Memory D
  ready : D → Memory D

abbrev pub is_unset : {D : Type 0} → Memory D → Bool
is_unset (unset dev) = true
is_unset _ = false

module _ (c : CharDriver) where
  open c use {Devc, devnr}

  -- The memory that probes got, by pointer; the next pointer; the device that `cdev_add` registered for a
  -- number; and the files.
  pub record World : Type 0 where
    pub heap : ℕ → Memory Devc
    pub next : ℕ
    pub cdevs : ℕ → Option ℕ
    pub files : List (Option ℕ)

  -- A probe gets as far as `cdev_add` with this device; `setup_pltdrv_dev` runs on a device, for what
  -- `kfifo_alloc` returns; `uninstall_pltdrv_dev` and `cdev_del` run on it; the node of a number is
  -- opened; a file is closed, written or read.
  pub data Call : Type 0 where
    registers : Devc → Call
    sets_up : ℕ → ℤ → Call
    uninstalls : ℕ → Call
    deletes : ℕ → Call
    opens : ℕ → Call
    closes : ℕ → Call
    writes : ℕ → Bool → List ℕ → ℕ → Call
    reads : ℕ → Bool → ℕ → ℕ → Call

  abbrev pub registered : Devc → World → World
  registered dev w = record w {
    heap = put w.heap w.next (unset dev);
    next = suc w.next;
    cdevs = put w.cdevs (devnr dev) (some w.next);
  }

  abbrev pub set_up : ℤ × Devc → Memory Devc
  set_up (ret, dev) = if is_nonzero ret then unset dev else ready dev

  abbrev pub set_up_at : ℕ → ℤ → Memory Devc → World → World
  set_up_at p alloc (unset dev) w = record w { heap = put w.heap p (set_up (c.setup alloc dev)) }
  set_up_at p alloc _ w = w

  abbrev pub uninstall_at : ℕ → Memory Devc → World → World
  uninstall_at p (ready dev) w = record w { heap = put w.heap p (unset dev) }
  uninstall_at p _ w = w

  -- `cdev_del`, after which the probe or the remove ends, and the memory of `devm_kzalloc` with it.
  abbrev pub delete_at : ℕ → Memory Devc → World → World
  delete_at p (unset dev) w = record w {
    heap = put w.heap p freed;
    cdevs = put w.cdevs (devnr dev) none;
  }
  delete_at p _ w = w

  -- `pltdrv_open_fifo`: `container_of` finds the device of the node.
  unfoldable pub open_fifo : Option ℕ → World → Result × World
  open_fifo none w = (no_device, w)
  open_fifo (some p) w = (done, record w { files = w.files ++ (some p ∷ []) })

  -- `pltdrv_write_fifo` and `pltdrv_read_fifo` from `file->private_data` on.
  unfoldable pub write_at : ℕ → Memory Devc → Bool → List ℕ → ℕ → World → Result × World
  write_at p freed signal buf count w = (freed_used, w)
  write_at p (unset dev) signal buf count w = (unset_used, w)
  write_at p (ready dev) signal buf count w =
      let (out, bytes, dev') = c.write signal buf count dev in
      (replied out bytes, record w { heap = put w.heap p (ready dev') })

  unfoldable pub read_at : ℕ → Memory Devc → Bool → ℕ → ℕ → World → Result × World
  read_at p freed signal room count w = (freed_used, w)
  read_at p (unset dev) signal room count w = (unset_used, w)
  read_at p (ready dev) signal room count w =
      let (out, bytes, dev') = c.read signal room count dev in
      (replied out bytes, record w { heap = put w.heap p (ready dev') })

  unfoldable pub write_file : Option ℕ → Bool → List ℕ → ℕ → World → Result × World
  unfolding write_at
  write_file none signal buf count w = (bad_file, w)
  write_file (some p) signal buf count w = write_at p (w.heap p) signal buf count w

  unfoldable pub read_file : Option ℕ → Bool → ℕ → ℕ → World → Result × World
  unfolding read_at
  read_file none signal room count w = (bad_file, w)
  read_file (some p) signal room count w = read_at p (w.heap p) signal room count w

  unfoldable pub exec : World → Call → Result × World
  unfolding open_fifo write_file read_file
  exec w (registers dev) = (done, registered dev w)
  exec w (sets_up p alloc) = (done, set_up_at p alloc (w.heap p) w)
  exec w (uninstalls p) = (done, uninstall_at p (w.heap p) w)
  exec w (deletes p) = (done, delete_at p (w.heap p) w)
  exec w (opens n) = open_fifo (w.cdevs n) w
  exec w (closes i) = (done, record w { files = closed i w.files })
  exec w (writes i signal buf count) = write_file (private_data i w.files) signal buf count w
  exec w (reads i signal room count) = read_file (private_data i w.files) signal room count w

  -- A call of a history uses memory that is freed or a FIFO that has none.
  pub faults : World → List Call → Bool
  unfolding exec
  faults w [] = false
  faults w (call ∷ calls) = let out = exec w call in is_fault out.0 || faults out.1 calls

  abbrev pub finds_unset : Option ℕ → World → Bool
  finds_unset none w = false
  finds_unset (some p) w = is_unset (w.heap p)

  -- No remove begins while a file of the device is open, and no open comes while a device is registered
  -- without its FIFO.
  abbrev pub considerate : World → Call → Bool
  considerate w (uninstalls p) = not (used p w.files)
  considerate w (opens n) = not (finds_unset (w.cdevs n) w)
  considerate w _ = true

  pub all_considerate : World → List Call → Bool
  unfolding exec
  all_considerate w [] = true
  all_considerate w (call ∷ calls) =
      let out = exec w call in considerate w call && all_considerate out.1 calls
