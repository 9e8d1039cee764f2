-- ===== src/DummyUsbTtl.antt =====
-- linux-device-drivers/17.dummy-usb-ttl-drv/dummy_usb_ttl_drv.c: a USB driver that only prints.
use linux_kernel_ldd.Prelude.{
  ℕ, suc, ◌≡◌, some, [], ◌∷◌, arith, if◌then◌else◌, ℤ, pos, negsuc, is_nonzero, negated,
}
use linux_kernel_ldd.Kernel.Replay.{
  usb_driver, Log, Outcome, release, claims, stop, held_after, held_after_both,
}

abbrev pub cp2102_vendor_id : ℕ
cp2102_vendor_id = 0x10c4

abbrev pub cp2102_product_id : ℕ
cp2102_product_id = 0xea60

-- `usb_ttl_init`, for the result of `usb_register`: it returns the number of the error without its
-- sign.
pub usb_ttl_init : ℤ → Outcome
usb_ttl_init ret = if is_nonzero ret then stop (negated ret) else claims usb_driver (stop (pos 0))

-- `usb_ttl_exit`.
pub usb_ttl_exit : Log
usb_ttl_exit = release usb_driver ∷ []

-- The load holds the driver exactly where it returns 0, and then the unload gives it back; an error
-- of `usb_register` becomes a positive number, which the kernel does not take for an error.
pub usb_ttl_init_sign :
    (n : ℕ)
    → (held_after_both (usb_ttl_init (pos 0)) usb_ttl_exit ≡ some [])
      × (held_after (usb_ttl_init (negsuc n)) ≡ some [])
      × ((usb_ttl_init (negsuc n)).0 ≡ pos (suc n))
unfolding usb_ttl_init usb_ttl_exit
usb_ttl_init_sign n = ground arith
