-- ===== src/VirtTty/Tests.antt =====
-- The theorems about virt_tty.c at work.
use linux_kernel_ldd.Prelude.{refl, arith}
use linux_kernel_ldd.VirtTty.{Line, rearming, open_line, virttty_open, goes_off}
use linux_kernel_ldd.VirtTty.Lines.{
  Reach, start, then_step, opened, ticks, expires, fresh, IsTicking, Reach-IsTicking,
}

abbrev once : Line
once = open_line fresh

-- The timer of the open line has gone off.
expired : Reach (goes_off once)
unfolding open_line virttty_open
expired = then_step (then_step start (opened fresh)) (ticks (expires once refl refl))

Reach-IsTicking_example : IsTicking (goes_off once)
unfolding open_line virttty_open goes_off
Reach-IsTicking_example = Reach-IsTicking expired refl (omega arith)

-- The run is about to arm the timer again.
abbrev late : Line
late = record once { callback = rearming }
