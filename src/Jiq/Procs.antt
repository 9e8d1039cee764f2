-- ===== src/Jiq/Procs.antt =====
-- The names in /proc while jit.c and jiq.c, which both use jitimer, are loaded and unloaded.
use linux_kernel_ldd.Prelude.{
  ℕ, ◌≡◌, ◌⊎◌, inl, inr, refl, Bool, true, false, ◌||◌, Option, none, some, List, [], ◌∷◌, arith,
  ◌==◌, if◌then◌else◌, put, ◌&&◌, ap,
}
use mathlib.Core.Option
use linux_kernel_ldd.Jit.{jitimer}
use linux_kernel_ldd.Jit.Files.{JitShow, show_of}
use linux_kernel_ldd.Jiq.{jiqwq, jiqwqdelay, jiqtasklet}
use linux_kernel_ldd.Jiq.Shared.{Work, fops_of}

pub data Module : Type 0 where
  jit : Module
  jiq : Module

-- The names that `jit_init` and `jiq_init` create, in order.
abbrev pub created : Module → List ℕ
created jit = 0 ∷ 1 ∷ 2 ∷ 3 ∷ 4 ∷ jitimer ∷ 6 ∷ 7 ∷ []
created jiq = jiqwq ∷ jiqwqdelay ∷ jitimer ∷ jiqtasklet ∷ []

-- The names that `jit_cleanup` and `jiq_cleanup` remove, in order.
abbrev pub cleaned : Module → List ℕ
cleaned jit = 0 ∷ 1 ∷ 2 ∷ 3 ∷ 4 ∷ jitimer ∷ 6 ∷ 7 ∷ []
cleaned jiq = jiqwq ∷ jiqwqdelay ∷ jitimer ∷ jiqtasklet ∷ []

-- Which module made the file of a name, and which modules are loaded.
pub record Procs : Type 0 where
  pub owner : ℕ → Option Module
  pub loaded : Module → Bool

-- `proc_create` refuses a name that is taken.
abbrev pub first_of : Option Module → Module → Option Module
first_of none m = some m
first_of (some o) m = some o

abbrev pub create_all : Module → List ℕ → (ℕ → Option Module) → ℕ → Option Module
create_all m [] owner = owner
create_all m (n ∷ ns) owner = create_all m ns (put owner n (first_of (owner n) m))

-- `remove_proc_entry` removes a name whoever made its file.
abbrev pub remove_all : List ℕ → (ℕ → Option Module) → ℕ → Option Module
remove_all [] owner = owner
remove_all (n ∷ ns) owner = remove_all ns (put owner n none)

abbrev pub same_module : Module → Module → Bool
same_module jit jit = true
same_module jiq jiq = true
same_module _ _ = false

abbrev pub set_loaded : Module → Bool → (Module → Bool) → Module → Bool
set_loaded m b loaded o = if same_module m o then b else loaded o

pub data Event : Type 0 where
  loads : Module → Event
  unloads : Module → Event

-- The kernel loads a module that is not loaded, and unloads one that is.
pub step : Procs → Event → Procs
step s (loads m) =
    if s.loaded m
    then s
    else record { owner = create_all m (created m) s.owner; loaded = set_loaded m true s.loaded }
step s (unloads m) =
    if s.loaded m
    then record { owner = remove_all (cleaned m) s.owner; loaded = set_loaded m false s.loaded }
    else s

unfoldable pub history : Procs → List Event → Procs
unfolding step
history s [] = s
history s (e ∷ es) = history (step s e) es

abbrev pub booted : Procs
booted = record { owner = λ n. none; loaded = λ m. false }

abbrev pub has : ℕ → List ℕ → Bool
has n [] = false
has n (m ∷ ms) = n == m || has n ms

create_all_at :
    (m : Module) (ns : List ℕ) (owner : ℕ → Option Module) (n : ℕ)
    → create_all m ns owner n ≡ (if has n ns then first_of (owner n) m else owner n)
create_all_at m [] owner n = refl
create_all_at m (k ∷ ns) owner n =
    ground (arith, create_all_at m ns (put owner k (first_of (owner k) m)) n)

remove_all_at :
    (ns : List ℕ) (owner : ℕ → Option Module) (n : ℕ)
    → remove_all ns owner n ≡ (if has n ns then none else owner n)
remove_all_at [] owner n = refl
remove_all_at (k ∷ ns) owner n = ground (arith, remove_all_at ns (put owner k none) n)

-- What a name leads to when its file is opened.
abbrev pub opened : ℕ → Option Module → Option (JitShow ⊎ Work)
opened n none = none
opened n (some jit) = Option.map inl (show_of n)
opened n (some jiq) = Option.map inr (fops_of n)

abbrev pub is_owned : Option Module → (Module → Bool) → Bool
is_owned none loaded = true
is_owned (some m) loaded = loaded m

-- The owner of a name that only one module uses.
abbrev pub expected : ℕ → (Module → Bool) → Option Module
expected n loaded =
    if has n (created jit) && loaded jit
    then some jit
    else if has n (created jiq) && loaded jiq
    then some jiq
    else none

abbrev pub IsTidy : ℕ → Procs → Type 0
IsTidy n s =
    (is_owned (s.owner n) s.loaded ≡ true)
    × (s.owner n ≡ (if n == jitimer then s.owner n else expected n s.loaded))

step-IsTidy : (n : ℕ) (s : Procs) (e : Event) → IsTidy n s → IsTidy n (step s e)
unfolding step
step-IsTidy n s (loads jit) h = ground (arith, h, create_all_at jit (created jit) s.owner n)
step-IsTidy n s (loads jiq) h = ground (arith, h, create_all_at jiq (created jiq) s.owner n)
step-IsTidy n s (unloads jit) h = ground (arith, h, remove_all_at (cleaned jit) s.owner n)
step-IsTidy n s (unloads jiq) h = ground (arith, h, remove_all_at (cleaned jiq) s.owner n)

history-IsTidy : (n : ℕ) (s : Procs) (es : List Event) → IsTidy n s → IsTidy n (history s es)
unfolding history
history-IsTidy n s [] h = h
history-IsTidy n s (e ∷ es) h = history-IsTidy n (step s e) es (step-IsTidy n s e h)

-- In whatever order the two modules are loaded and unloaded: a name never leads to a module that is not
-- loaded, and each name but jitimer leads to what the table and the data of its own module show as long as
-- this module is loaded, and to nothing otherwise.
pub opened-history :
    (es : List Event) (n : ℕ)
    → (n == jitimer) ≡ false
    → let s = history booted es in
      (is_owned (s.owner jitimer) s.loaded ≡ true)
      × (is_owned (s.owner n) s.loaded ≡ true)
      × (opened n (s.owner n) ≡ opened n (expected n s.loaded))
opened-history es n other =
    let tidy = λ (i : ℕ). history-IsTidy i booted es (ground arith) in
    ((tidy jitimer).0, (tidy n).0, ap (opened n) (ground (arith, (tidy n).1, other)))

-- Where both modules are loaded, the unload of either takes jitimer away, and the other one stays loaded
-- without it.
jitimer_lost :
    (s : Procs) (m o : Module)
    → same_module m o ≡ false
    → s.loaded m ≡ true
    → s.loaded o ≡ true
    → let s' = step s (unloads m) in (s'.owner jitimer ≡ none) × (s'.loaded o ≡ true)
unfolding step
jitimer_lost s jit o differ on also = ground (arith, on, also, differ)
jitimer_lost s jiq o differ on also = ground (arith, on, also, differ)
