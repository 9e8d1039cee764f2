-- ===== src/Jit/Currentime.antt =====
-- jit_currentime_show of linux-device-drivers/04.time/jit.c: the numbers that it prints.
use linux_kernel_ldd.Prelude.{ℕ, ◌+◌, ◌%◌, ◌^◌, ◌<◌, ◌≡◌, List, [], ◌∷◌, arith}

-- A reading of `ktime_get_real_ts64` or `ktime_get_coarse_real_ts64`.
pub record Timespec64 : Type 0 where
  pub tv_sec : ℕ
  pub tv_nsec : ℕ

-- The cast of a time to `int`, as a bit pattern.
abbrev pub cast_int : ℕ → ℕ
cast_int n = n % 2 ^ 32

-- `jit_currentime_show`, for `jiffies`, `get_jiffies_64` and the two readings.
pub jit_currentime_show : ℕ → ℕ → Timespec64 → Timespec64 → List ℕ
jit_currentime_show j1 j2 tv1 tv2 =
    j1
    ∷ j2
    ∷ cast_int tv1.tv_sec
    ∷ cast_int tv1.tv_nsec
    ∷ cast_int tv2.tv_sec
    ∷ cast_int tv2.tv_nsec
    ∷ []

-- Up to the year 2038 the times are printed as they are.
currentime_exact :
    (j1 j2 : ℕ) (tv1 tv2 : Timespec64)
    → tv1.tv_sec < 2 ^ 31
    → tv2.tv_sec < 2 ^ 31
    → tv1.tv_nsec < 10 ^ 9
    → tv2.tv_nsec < 10 ^ 9
    → jit_currentime_show j1 j2 tv1 tv2
      ≡ j1 ∷ j2 ∷ tv1.tv_sec ∷ tv1.tv_nsec ∷ tv2.tv_sec ∷ tv2.tv_nsec ∷ []
unfolding jit_currentime_show
currentime_exact j1 j2 tv1 tv2 s1 s2 n1 n2 = ground arith

-- The print does not tell two times that are 2 ^ 32 seconds apart.
currentime_wraps :
    (j1 j2 : ℕ) (tv1 tv2 : Timespec64)
    → jit_currentime_show j1 j2 (record tv1 { tv_sec = tv1.tv_sec + 2 ^ 32 }) tv2
      ≡ jit_currentime_show j1 j2 tv1 tv2
unfolding jit_currentime_show
currentime_wraps j1 j2 tv1 tv2 = ground arith
