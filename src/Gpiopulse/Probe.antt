-- ===== src/Gpiopulse/Probe.antt =====
-- pltdrv_gpiopulse_probe and pltdrv_gpiopulse_remove: what is held after them.
use linux_kernel_ldd.Prelude.{◌≡◌, ◌⊎◌, true, some, [], ◌∷◌, arith, pos, is_nonzero}
use linux_kernel_ldd.Kernel.Replay.{device, held_after, held_after_both}
use linux_kernel_ldd.Gpiopulse.{Answers, pltdrv_gpiopulse_probe, pltdrv_gpiopulse_remove}

-- After a successful probe, `pltdrv_gpiopulse_remove` gives back what it claimed.
pub gpiopulse_remove-probe :
    (a : Answers)
    → (pltdrv_gpiopulse_probe a).0 ≡ pos 0
    → held_after_both (pltdrv_gpiopulse_probe a) pltdrv_gpiopulse_remove ≡ some []
unfolding pltdrv_gpiopulse_probe pltdrv_gpiopulse_remove
gpiopulse_remove-probe a h = ground arith

-- A probe that fails holds nothing afterwards, but where it got as far as the direction of the pin:
-- then the device that it created is left.
pub gpiopulse_probe_leaves :
    (a : Answers)
    → is_nonzero (pltdrv_gpiopulse_probe a).0 ≡ true
    → (held_after (pltdrv_gpiopulse_probe a) ≡ some [])
      ⊎ ((held_after (pltdrv_gpiopulse_probe a) ≡ some (device 0 ∷ []))
          × ((pltdrv_gpiopulse_probe a).0 ≡ a.direction_output))
unfolding pltdrv_gpiopulse_probe
gpiopulse_probe_leaves a h = ground arith
