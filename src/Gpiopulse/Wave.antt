-- ===== src/Gpiopulse/Wave.antt =====
-- The pin of pltdrv_gpiopulse.c over time: timer runs and stores into the attributes.
use linux_kernel_ldd.Prelude.{
  ℕ, zero, suc, ◌*◌, ◌%◌, ◌^◌, ◌<◌, ◌≡◌, ◌≢◌, refl, Bool, true, false, not, ◌||◌, Option, none,
  some, arith, ◌==◌, if◌then◌else◌, pos,
}
use linux_kernel_ldd.Gpiopulse.{
  GpiopulsePrvtDevc, Answers, Kstrtol, timer_cbk, enablepulse_store, pulsetime_store, probed_dev,
  pltdrv_gpiopulse_probe,
}

abbrev pub is_armed : Option ℕ → Bool
is_armed none = false
is_armed (some delay) = true

-- What happens to the device: the timer goes off only while it is armed.
pub data Step : GpiopulsePrvtDevc → GpiopulsePrvtDevc → Type 0 where
  expired : (dev : GpiopulsePrvtDevc) → is_armed dev.timer ≡ true → Step dev (timer_cbk dev)
  enables :
      (parsed : Kstrtol) (count : ℕ) (dev : GpiopulsePrvtDevc)
      → Step dev (enablepulse_store parsed count dev).1
  times :
      (parsed : Kstrtol) (count : ℕ) (dev : GpiopulsePrvtDevc)
      → Step dev (pulsetime_store parsed count dev).1

-- The states that follow a successful probe.
pub data Reach (a : Answers) : GpiopulsePrvtDevc → Type 0 where
  start : (pltdrv_gpiopulse_probe a).0 ≡ pos 0 → Reach a (probed_dev a)
  then_step : {dev dev' : GpiopulsePrvtDevc} → Reach a dev → Step dev dev' → Reach a dev'

-- An enabled device has its timer armed.
abbrev pub IsLive : GpiopulsePrvtDevc → Type 0
IsLive dev = (dev.enablepulse == 0 || is_armed dev.timer) ≡ true

Step-IsLive : {dev dev' : GpiopulsePrvtDevc} → Step dev dev' → IsLive dev → IsLive dev'
unfolding timer_cbk enablepulse_store pulsetime_store
Step-IsLive (expired dev on) h = ground (arith, h)
Step-IsLive (enables parsed count dev) h = ground (arith, h)
Step-IsLive (times parsed count dev) h = ground (arith, h)

-- In every state that timer runs and stores into the attributes lead to from a probe, an enabled
-- device has its timer armed: its pulse never dies.
pub Reach-IsLive : (a : Answers) {dev : GpiopulsePrvtDevc} → Reach a dev → IsLive dev
unfolding probed_dev
Reach-IsLive a (start ok) = ground arith
Reach-IsLive a (then_step r s) = Step-IsLive s (Reach-IsLive a r)

-- `n` times as long as the timer is armed: it goes off.
pub ticks : ℕ → GpiopulsePrvtDevc → GpiopulsePrvtDevc
ticks zero dev = dev
ticks (suc n) dev = ticks n (if is_armed dev.timer then timer_cbk dev else dev)

abbrev pub flipped : ℕ → Bool → Bool
flipped n b = if n % 2 == 0 then b else not b

ticks_enabled :
    (n : ℕ) (dev : GpiopulsePrvtDevc)
    → dev.enablepulse ≢ 0
    → is_armed dev.timer ≡ true
    → ((ticks n dev).pin ≡ flipped n dev.pin) × (is_armed (ticks n dev).timer ≡ true)
unfolding ticks timer_cbk
ticks_enabled zero dev on armed = ground arith
ticks_enabled (suc n) dev on armed = ground (arith, ticks_enabled n (timer_cbk dev))

ticks_idle : (n : ℕ) (dev : GpiopulsePrvtDevc) → is_armed dev.timer ≡ false → ticks n dev ≡ dev
unfolding ticks
ticks_idle zero dev idle = refl
ticks_idle (suc n) dev idle = ground (arith, ticks_idle n dev)

-- From every state that a device can be in, an enabled device that is left alone toggles its pin at
-- each run of the timer, without end.
pub ticks-toggle :
    (a : Answers) (n : ℕ) {dev : GpiopulsePrvtDevc}
    → Reach a dev
    → dev.enablepulse ≢ 0
    → ((ticks n dev).pin ≡ flipped n dev.pin) × (is_armed (ticks n dev).timer ≡ true)
ticks-toggle a n {dev} r on = ticks_enabled n dev on (ground (arith, Reach-IsLive a r))

-- After 0 is stored the pin toggles once more where the timer was armed, and then stays as it is,
-- however long the device is left alone.
pub ticks-disable :
    (n count : ℕ) (dev : GpiopulsePrvtDevc)
    → let off : Kstrtol = record { ret = pos 0; value = 0 } in
      let dev' = ticks (suc n) (enablepulse_store off count dev).1 in
      (dev'.pin ≡ (if is_armed dev.timer then not dev.pin else dev.pin))
      × (is_armed dev'.timer ≡ false)
unfolding ticks enablepulse_store timer_cbk
ticks-disable n count dev = ground (
  arith,
  ticks_idle n (record dev { pin = not dev.pin; enablepulse = 0; timer = none }),
  ticks_idle n (record dev { enablepulse = 0 }),
)

-- A number that is a multiple of 2 ^ 32, and not 0, arms the timer and yet leaves the device disabled.
pub enablepulse_cut :
    (k count : ℕ) (dev : GpiopulsePrvtDevc)
    → 0 < k
    → let big : Kstrtol = record { ret = pos 0; value = k * 2 ^ 32 } in
      let dev' = (enablepulse_store big count dev).1 in
      (dev'.enablepulse ≡ 0) × (dev'.timer ≡ some dev.pulsetime)
unfolding enablepulse_store
enablepulse_cut k count dev h = ground arith
