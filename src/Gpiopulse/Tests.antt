-- ===== src/Gpiopulse/Tests.antt =====
-- The theorems about pltdrv_gpiopulse.c at work.
use linux_kernel_ldd.Prelude.{refl, ◌≡◌, true, some, pos}
use linux_kernel_ldd.Gpiopulse.{
  Answers, Kstrtol, probed_dev, enablepulse_store, pltdrv_gpiopulse_probe,
}
use linux_kernel_ldd.Gpiopulse.Wave.{start, then_step, enables, IsLive, Reach-IsLive}

abbrev half_second : Answers
half_second = record {
  of_node = true;
  gpio_request = pos 0;
  label = true;
  of_enablepulse = some 1;
  of_pulsetime = some 500;
  device_create = pos 0;
  direction_output = pos 0;
}

abbrev number_0 : Kstrtol
number_0 = record { ret = pos 0; value = 0 }

probes : (pltdrv_gpiopulse_probe half_second).0 ≡ pos 0
unfolding pltdrv_gpiopulse_probe
probes = refl

Reach-IsLive_example : IsLive (enablepulse_store number_0 2 (probed_dev half_second)).1
Reach-IsLive_example =
    Reach-IsLive half_second
      (then_step (start probes) (enables number_0 2 (probed_dev half_second)))
