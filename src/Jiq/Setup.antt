-- ===== src/Jiq/Setup.antt =====
-- jiq_init and jiq_cleanup, alone and beside jit.c, whose name `jitimer` they use too.
use linux_kernel_ldd.Prelude.{◌≡◌, refl, not, true, none, some, [], ◌++◌, ◌==◌}
use linux_kernel_ldd.Kernel.Replay.{replay, held_after_both}
use linux_kernel_ldd.Jit.{jitimer, jit_init, jit_cleanup}
use linux_kernel_ldd.Jiq.{jiq_init, jiq_cleanup}

-- The load and the unload are balanced where the kernel makes all the files.
jiq_init-jiq_cleanup : held_after_both (jiq_init (λ name. true)) jiq_cleanup ≡ some []
unfolding jiq_init jiq_cleanup
jiq_init-jiq_cleanup = refl

-- Beside jit.c the kernel refuses the second `jitimer`; the unload of this module takes the file of
-- the other, whose own unload then has none to remove.
shared_jitimer :
    (replay (
        (jit_init (λ name. true)).1
        ++ (jiq_init (λ name. not (name == jitimer))).1
        ++ jiq_cleanup
        ++ jit_cleanup)
      ≡ none)
unfolding jit_init jit_cleanup jiq_init jiq_cleanup
shared_jitimer = refl
