-- ===== src/Chardrvs/AppTest.antt =====
-- linux-device-drivers/02.chardrvs/app-test.c, with its ioctl part switched on: a program that opens the
-- device, sets the number of users and reads it back.
use linux_kernel_ldd.Prelude.{
  ℕ, ◌+◌, ◌*◌, ◌%◌, ◌^◌, ◌<◌, ◌≡◌, Bool, true, Option, none, some, arith, if◌then◌else◌, is_neg,
}
use linux_kernel_ldd.Chardrvs.{Dev, open_dev, open_refused, release_dev}
use linux_kernel_ldd.Chardrvs.Ioctl.{
  Ioc, UserLong, ioctl, chardrvs_iocsetnrusers, chardrvs_iocgetnrusers,
}

abbrev pub wr_num : ℕ
wr_num = 2

abbrev pub rd_val : ℕ
rd_val = 0

-- The driver takes the pointer to an `int` for one to an `unsigned long`: what it reads has the `int` in
-- its low half, and the bytes behind it, `beyond`, in the other.
abbrev pub long_at : ℕ → ℕ → UserLong
long_at n beyond = record { value = some (n + beyond * 2 ^ 32); writable = true }

-- The `int` after the driver stored through its pointer, or did not.
abbrev pub int_after : ℕ → Option ℕ → ℕ
int_after n none = n
int_after n (some stored) = stored % 2 ^ 32

module _ (ioc : Ioc) {F : Type 0} where
  -- The two calls on the open file, and `close`: the printed number, and the device.
  pub set_and_get : Bool → ℕ → Dev F → Option ℕ × Dev F
  unfolding ioctl release_dev
  set_and_get capable beyond d =
      let set = ioctl ioc capable (chardrvs_iocsetnrusers ioc) (long_at wr_num beyond) d in
      let get = ioctl ioc capable (chardrvs_iocgetnrusers ioc) (long_at rd_val beyond) set.dev in
      if is_neg set.ret
      then (none, (release_dev set.dev).1)
      else (some (int_after rd_val get.stored), (release_dev get.dev).1)

  -- `main`, on the device that it opens.
  pub main : Bool → ℕ → Dev F → Option ℕ × Dev F
  unfolding set_and_get open_dev
  main capable beyond d =
      let opened = open_dev d in
      if is_neg opened.0 then (none, opened.1) else set_and_get capable beyond opened.1

  -- On a device with a free place, an administrator's program prints the number that it has set,
  -- whatever stands behind its variables, and leaves the device with that limit and with as many users
  -- as before; without the right, or without a free place, it prints none and leaves the device as it
  -- was.
  pub main_lem :
      (capable : Bool) (beyond : ℕ) (d : Dev F)
      → d.ref_cntr + 1 < 2 ^ 31
      → main capable beyond d ≡ (
          if open_refused d
          then (none, d)
          else if capable
          then (some wr_num, record d { usrs_cnt = wr_num })
          else (none, d))
  unfolding main
  main_lem capable beyond d small = ground (
    arith,
    ioc.type_iow b'c' 1 8,
    ioc.nr_iow b'c' 1 8,
    ioc.type_ior b'c' 2 8,
    ioc.nr_ior b'c' 2 8,
  )
