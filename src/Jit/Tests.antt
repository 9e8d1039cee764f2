-- ===== src/Jit/Tests.antt =====
-- The theorem about jit.c at work.
use linux_kernel_ldd.Prelude.{ℕ, ◌≡◌, ◌+◌, ◌-◌, ◌^◌, pos, List, [], ◌∷◌, arith}
use linux_kernel_ldd.Jit.{jit_busy, jit_sched, jit_fn_show}
use mathlib.Core.Option
use linux_kernel_ldd.Jit.Delay.{wrapped, wrapped_all, next_after, jit_fn_show-next_after}

-- The clock wraps around at the third of these times.
abbrev around : List ℕ
around = (2 ^ 64 - 1) ∷ (2 ^ 64 + 1) ∷ (2 ^ 64 + 8) ∷ (2 ^ 64 + 9) ∷ []

jit_fn_show-next_after_example :
    (jit_fn_show jit_busy (pos 10) (wrapped (2 ^ 64 - 2) ∷ wrapped_all around)
      ≡ Option.map (λ u. (wrapped (2 ^ 64 - 2), wrapped u)) (next_after (2 ^ 64 - 2 + 10) around))
    × (jit_fn_show jit_sched (pos 10) (wrapped (2 ^ 64 - 2) ∷ wrapped_all around)
        ≡ Option.map (λ u. (wrapped (2 ^ 64 - 2), wrapped u)) (next_after (2 ^ 64 - 2 + 10) around))
jit_fn_show-next_after_example =
    jit_fn_show-next_after (2 ^ 64 - 2) 10 around (omega arith) (ground arith)
