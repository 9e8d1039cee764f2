-- ===== src/Chardrvs/Users.antt =====
-- chardrvs_open and chardrvs_release: the limit on the number of users.
use linux_kernel_ldd.Prelude.{
  ℕ, ◌+◌, ◌-◌, ◌^◌, ◌≤◌, ◌<◌, ◌≡◌, List, [], ◌∷◌, pos, is_neg, if◌then◌else◌, ltb, arith,
}
use linux_kernel_ldd.Kernel.Errno.{emfile}
use linux_kernel_ldd.Chardrvs.{Dev, open_dev, release_dev}

-- What processes ask for. The kernel calls `release` once for each open file.
pub data FileCall : Type 0 where
  open_call : FileCall
  close_call : FileCall

-- The device and the number of files open on it.
pub record Session (F : Type 0) : Type 0 where
  pub dev : Dev F
  pub files : ℕ

module _ {F : Type 0} where
  pub file_step : Session F → FileCall → Session F
  file_step s open_call =
      let (ret, d) = open_dev s.dev in
      record { dev = d; files = if is_neg ret then s.files else s.files + 1 }
  file_step s close_call =
      if ltb 0 s.files then record { dev = (release_dev s.dev).1; files = s.files - 1 } else s

  pub file_run : Session F → List FileCall → Session F
  file_run s [] = s
  file_run s (c ∷ cs) = file_run (file_step s c) cs

  -- `ref_cntr` counts the open files, and they are not more than the limit, an `int`.
  pub record IsCounted (s : Session F) : Type 0 where
    pub counted : s.dev.ref_cntr ≡ s.files
    pub limited : s.files ≤ s.dev.usrs_cnt
    pub small : s.dev.usrs_cnt < 2 ^ 31

  file_step-IsCounted : (s : Session F) (c : FileCall) → IsCounted s → IsCounted (file_step s c)
  unfolding file_step open_dev release_dev
  file_step-IsCounted s open_call v = ground arith
  file_step-IsCounted s close_call v = ground arith

  -- As long as each open runs by itself, `ref_cntr` stays the number of open files and within the
  -- limit, over every sequence of opens and closes that starts so.
  pub file_run-IsCounted :
      (s : Session F) (cs : List FileCall) → IsCounted s → IsCounted (file_run s cs)
  unfolding file_run
  file_run-IsCounted s [] v = v
  file_run-IsCounted s (c ∷ cs) v =
      file_run-IsCounted (file_step s c) cs (file_step-IsCounted s c v)

  -- An open succeeds exactly below the limit, and a refused one changes nothing.
  pub open_dev_cases :
      (d : Dev F)
      → d.usrs_cnt < 2 ^ 31
      → (d.ref_cntr < d.usrs_cnt → open_dev d ≡ (pos 0, record d { ref_cntr = d.ref_cntr + 1 }))
        × (d.usrs_cnt ≤ d.ref_cntr → open_dev d ≡ (emfile, d))
  unfolding open_dev
  open_dev_cases d small = (λ h. ground arith, λ h. ground arith)
