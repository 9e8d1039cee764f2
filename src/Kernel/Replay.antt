-- ===== src/Kernel/Replay.antt =====
-- The kernel objects that set-up and tear-down code claims and gives back. A routine is modelled
-- with the log of its successful claims and of its releases; `replay` runs a log against what is
-- held, and faults on the release of an object that is not held (a double free, or the release of
-- what was never set up).
use linux_kernel_ldd.Prelude.{
  ℕ, ◌≡◌, refl, sym, ℤ, Bool, ◌&&◌, Option, none, some, List, [], ◌∷◌, ◌++◌, ◌==◌, if◌then◌else◌,
}

-- Where a driver has several objects of a kind the number tells them apart.
pub data Resource : Type 0 where
  memory : ℕ → Resource
  chrdev_region : Resource
  class : Resource
  device : ℕ → Resource
  cdev : ℕ → Resource
  fifo : ℕ → Resource
  proc_file : Resource
  dbg_dir : Resource
  dbg_file : Resource
  sysfs_group : Resource
  blkdev : Resource
  tag_set : Resource
  disk : Resource
  tty_driver : Resource
  tty_port : Resource
  tty_device : Resource
  pci_enabled : Resource
  pci_regions : Resource
  iomap : ℕ → Resource
  irq_vectors : Resource
  irq : Resource
  disk_added : Resource
  driver : Resource
  tty_registered : Resource
  file : ℕ → Resource
  mapping : ℕ → Resource
  bus : Resource
  bus_device : Resource
  platform_device : ℕ → Resource
  usb_driver : Resource
  virtbus_device : ℕ → Resource
  proc_entry : ℕ → Resource
  msi : Resource
  region : ℕ → Resource
  block_device : ℕ → Resource

abbrev pub kind : Resource → ℕ
kind (memory n) = 0
kind chrdev_region = 1
kind class = 2
kind (device n) = 3
kind (cdev n) = 4
kind (fifo n) = 5
kind proc_file = 6
kind dbg_dir = 7
kind dbg_file = 8
kind sysfs_group = 9
kind blkdev = 10
kind tag_set = 11
kind disk = 12
kind tty_driver = 13
kind tty_port = 14
kind tty_device = 15
kind pci_enabled = 16
kind pci_regions = 17
kind (iomap n) = 18
kind irq_vectors = 19
kind irq = 20
kind disk_added = 21
kind tty_registered = 22
kind (file n) = 23
kind driver = 25
kind (mapping n) = 24
kind bus = 26
kind bus_device = 27
kind (platform_device n) = 28
kind usb_driver = 29
kind (virtbus_device n) = 30
kind (proc_entry n) = 31
kind msi = 32
kind (region n) = 33
kind (block_device n) = 34

abbrev pub index : Resource → ℕ
index (memory n) = n
index (device n) = n
index (cdev n) = n
index (fifo n) = n
index (iomap n) = n
index (file n) = n
index (mapping n) = n
index (platform_device n) = n
index (virtbus_device n) = n
index (proc_entry n) = n
index (region n) = n
index (block_device n) = n
index _ = 0

abbrev pub same : Resource → Resource → Bool
same a b = kind a == kind b && index a == index b

pub data Event : Type 0 where
  acquire : Resource → Event
  release : Resource → Event

abbrev pub Log : Type 0
Log = List Event

-- `s` stays held beside what is left.
abbrev pub keep : Resource → Option (List Resource) → Option (List Resource)
keep s none = none
keep s (some rest) = some (s ∷ rest)

-- What is left when one `r` is given back; `none` if there is none.
abbrev pub give_back : Resource → List Resource → Option (List Resource)
give_back r [] = none
give_back r (s ∷ held) = if same r s then some held else keep s (give_back r held)

-- One event against what is held.
abbrev pub act : Event → List Resource → Option (List Resource)
act (acquire r) held = some (r ∷ held)
act (release r) held = give_back r held

-- A fault stays a fault.
abbrev pub replay_from : Option (List Resource) → Log → Option (List Resource)
replay_from held [] = held
replay_from none (e ∷ log) = none
replay_from (some held) (e ∷ log) = replay_from (act e held) log

abbrev pub replay : Log → Option (List Resource)
replay log = replay_from (some []) log

pub replay_from-none : (log : Log) → replay_from none log ≡ none
replay_from-none [] = refl
replay_from-none (e ∷ log) = refl

-- What a second log does stands on what the first leaves.
pub replay_from-append :
    (held : Option (List Resource)) (log more : Log)
    → replay_from held (log ++ more) ≡ replay_from (replay_from held log) more
replay_from-append held [] more = refl
replay_from-append none (e ∷ log) more = sym (replay_from-none more)
replay_from-append (some held) (e ∷ log) more = replay_from-append (act e held) log more

-- A routine's result and its log. Set-up code is written from these: a claim or a release before what
-- follows.
abbrev pub Outcome : Type 0
Outcome = ℤ × Log

abbrev pub stop : ℤ → Outcome
stop ret = (ret, [])

abbrev pub claims : Resource → Outcome → Outcome
claims r (ret, log) = (ret, acquire r ∷ log)

abbrev pub frees : Resource → Outcome → Outcome
frees r (ret, log) = (ret, release r ∷ log)

-- A claim whose success the code does not look at.
abbrev pub claims_if : Bool → Resource → Outcome → Outcome
claims_if done r up = if done then claims r up else up

-- What is held after a routine that starts with nothing held; `none` after a fault.
abbrev pub held_after : Outcome → Option (List Resource)
held_after (ret, log) = replay log

-- What is held after a set-up and then a tear-down.
abbrev pub held_after_both : Outcome → Log → Option (List Resource)
held_after_both (ret, log) down = replay (log ++ down)

pub held_after_both_lem :
    (up : Outcome) (down : Log) → held_after_both up down ≡ replay_from (held_after up) down
held_after_both_lem (ret, log) down = replay_from-append (some []) log down
