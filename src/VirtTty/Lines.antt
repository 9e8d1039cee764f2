-- ===== src/VirtTty/Lines.antt =====
-- virt_tty.c over time: opens, closes and the runs of the timer's function, any of which can come while
-- such a run is on its way.
use linux_kernel_ldd.Prelude.{
  ℕ, zero, suc, ◌+◌, ◌-◌, ◌≤◌, ◌<◌, ◌≡◌, ◌⊎◌, refl, ◌∙◌, true, false, Bool, not, ◌||◌, arith, ltb,
  ◌==◌, List, [], ◌++◌, if◌then◌else◌,
}
use linux_kernel_ldd.VirtTty.{
  VirtTtyDev, Line, Callback, idle, inserting, rearming, hello, goes_off, insert_text, rearm,
  open_line, virttty_open, do_close, close_all,
}

-- The steps of the timer and of its function, which the handlers do not stop.
pub data Tick : Line → Line → Type 0 where
  expires : (line : Line) → line.dev.timer ≡ true → line.callback ≡ idle → Tick line (goes_off line)
  inserts : (line : Line) → line.callback ≡ inserting → Tick line (insert_text line)
  rearms : (line : Line) → line.callback ≡ rearming → Tick line (rearm line)

-- A handler holds the mutex, which the timer's function does not take.
pub data Step : Line → Line → Type 0 where
  opened : (line : Line) → Step line (open_line line)
  closed : (line : Line) → Step line (record line { dev = do_close line.dev })
  ticks : {line line' : Line} → Tick line line' → Step line line'

abbrev pub fresh : Line
fresh = record {
  dev = record { open_count = 0; timer = false };
  callback = idle;
  input = [];
  clobbered = false;
}

pub data Reach : Line → Type 0 where
  start : Reach fresh
  then_step : {line line' : Line} → Reach line → Step line line' → Reach line'

abbrev pub is_idle : Callback → Bool
is_idle idle = true
is_idle _ = false

-- The timer is armed, or a run of its function is on its way, which will arm it.
abbrev pub IsTicking : Line → Type 0
IsTicking line = (line.dev.timer ≡ true) ⊎ (is_idle line.callback ≡ false)

-- The line is closed or ticks, unless an armed timer has been set up.
abbrev closed_or_ticks : Line → Bool
closed_or_ticks line =
    (line.clobbered || line.dev.open_count == 0) || (line.dev.timer || not (is_idle line.callback))

Step-closed_or_ticks :
    {line line' : Line}
    → Step line line'
    → closed_or_ticks line ≡ true
    → closed_or_ticks line' ≡ true
unfolding open_line virttty_open do_close goes_off insert_text rearm
Step-closed_or_ticks (opened line) h = ground (arith, h)
Step-closed_or_ticks (closed line) h = ground (arith, h)
Step-closed_or_ticks (ticks (expires line on off)) h = ground (arith, h)
Step-closed_or_ticks (ticks (inserts line on)) h = ground (arith, h)
Step-closed_or_ticks (ticks (rearms line on)) h = ground (arith, h)

Reach-closed_or_ticks : {line : Line} → Reach line → closed_or_ticks line ≡ true
Reach-closed_or_ticks start = refl
Reach-closed_or_ticks (then_step r s) = Step-closed_or_ticks s (Reach-closed_or_ticks r)

-- In every state that opens, closes and the steps of the timer lead to, in any order: while the line is
-- open and as long as no armed timer has been set up, the timer is armed or a run of its function has not
-- yet ended.
pub Reach-IsTicking :
    {line : Line} → Reach line → line.clobbered ≡ false → 0 < line.dev.open_count → IsTicking line
Reach-IsTicking r sound up = ground (arith, Reach-closed_or_ticks r, sound, up)

-- Steps of the timer alone.
pub data Ticks (line : Line) : Line → Type 0 where
  now : Ticks line line
  later : {here there : Line} → Ticks line here → Tick here there → Ticks line there

pub texts : ℕ → List ℕ
texts zero = []
texts (suc n) = texts n ++ hello

close_all_lem :
    (fuel : ℕ) (dev : VirtTtyDev)
    → dev.open_count ≤ fuel
    → ((close_all fuel dev).open_count ≡ 0)
      × ((close_all fuel dev).timer ≡ (if dev.open_count == 0 then dev.timer else false))
unfolding close_all do_close
close_all_lem zero dev h = ground arith
close_all_lem (suc fuel) dev h = ground (arith, close_all_lem fuel (do_close dev))

-- The loop of `virttty_exit` ends after as many rounds as the line is open times, with the line closed
-- and its timer off if it was open.
open_count-close_all :
    (dev : VirtTtyDev)
    → ((close_all dev.open_count dev).open_count ≡ 0)
      × ((close_all dev.open_count dev).timer ≡ (if dev.open_count == 0 then dev.timer else false))
open_count-close_all dev = close_all_lem dev.open_count dev (omega arith)

-- The timer is armed exactly while the line is open.
abbrev pub IsArmed : VirtTtyDev → Type 0
IsArmed dev = dev.timer ≡ ltb 0 dev.open_count

opened-IsArmed : (dev : VirtTtyDev) → IsArmed dev → IsArmed (virttty_open dev)
unfolding virttty_open
opened-IsArmed dev h = ground (arith, h)

closed-IsArmed : (dev : VirtTtyDev) → IsArmed dev → IsArmed (do_close dev)
unfolding do_close
closed-IsArmed dev h = ground (arith, h)

-- `n` opens, and `n` closes.
pub opens : ℕ → VirtTtyDev → VirtTtyDev
opens zero dev = dev
opens (suc n) dev = opens n (virttty_open dev)

pub closes : ℕ → VirtTtyDev → VirtTtyDev
closes zero dev = dev
closes (suc n) dev = closes n (do_close dev)

opens_lem :
    (n : ℕ) (dev : VirtTtyDev)
    → IsArmed dev
    → opens n dev ≡ record { open_count = dev.open_count + n; timer = ltb 0 (dev.open_count + n) }
unfolding opens virttty_open
opens_lem zero dev h = ground (arith, h)
opens_lem (suc n) dev h = ground (arith, h, opens_lem n (virttty_open dev) (opened-IsArmed dev h))

closes_lem :
    (n : ℕ) (dev : VirtTtyDev)
    → IsArmed dev
    → closes n dev ≡ record { open_count = dev.open_count - n; timer = ltb 0 (dev.open_count - n) }
unfolding closes do_close
closes_lem zero dev h = ground (arith, h)
closes_lem (suc n) dev h = ground (arith, h, closes_lem n (do_close dev) (closed-IsArmed dev h))

-- Where the timer is armed exactly while the line is open and no run of it comes in between, as many
-- closes as opens lead back to the same state, timer included.
closes-opens : (n : ℕ) (dev : VirtTtyDev) → IsArmed dev → closes n (opens n dev) ≡ dev
closes-opens n dev h = rw (opens_lem n dev h) (closes_lem n _ refl ∙ ground (arith, h))
