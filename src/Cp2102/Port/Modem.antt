-- ===== src/Cp2102/Port/Modem.antt =====
-- serial_cp2102_tiocmset and serial_cp2102_tiocmget.
use linux_kernel_ldd.Prelude.{
  ℕ, ◌/◌, ◌%◌, ◌≡◌, refl, Bool, true, false, not, ◌&&◌, ◌||◌, arith, ℤ, pos, is_neg, is_nonzero,
}
use linux_kernel_ldd.Cp2102.{UsbCore}
use linux_kernel_ldd.Cp2102.Port.{
  PrvDev, Mcr, Msr, Lines, tiocmset, tiocmget, tiocm_word, bit_value,
}

module _ (usb : UsbCore) where
  -- A request to raise DTR, and nothing else, raises RTS and leaves DTR as it happens to be: the line
  -- that is asked for is never the one that is set.
  pub tiocmset_dtr :
      (dev : PrvDev) (mcr : Mcr) (status : ℤ)
      → let raise : Lines = record { dtr = true; rts = false } in
        let nothing : Lines = record { dtr = false; rts = false } in
        (tiocmset usb dev raise nothing mcr status).2.mcr
        ≡ record mcr { rts = true; dtr_mask = true }
  unfolding tiocmset
  tiocmset_dtr dev mcr status = refl

  -- Where the mask bits are clear before, they say which lines are asked for; RTS follows its requests,
  -- a request to lower a line coming after one to raise it, and DTR can only be lowered.
  pub tiocmset_lines :
      (dev : PrvDev) (set clear : Lines) (mcr : Mcr) (status : ℤ)
      → mcr.dtr_mask ≡ false
      → mcr.rts_mask ≡ false
      → let m = (tiocmset usb dev set clear mcr status).2.mcr in
        (m.dtr_mask ≡ (set.dtr || clear.dtr))
        × (m.rts_mask ≡ (set.rts || clear.rts))
        × (m.rts ≡ (not clear.rts && (set.rts || set.dtr || mcr.rts)))
        × (m.dtr ≡ (not clear.dtr && mcr.dtr))
  unfolding tiocmset
  tiocmset_lines dev set clear mcr status d r = ground arith

  -- A read of the modem status that fails gives an error below 0, and keeps the status of before.
  pub tiocmget_fails :
      (dev : PrvDev) (msr : Msr) (status : ℤ)
      → is_nonzero status ≡ true
      → (is_neg (tiocmget usb dev msr status).0 ≡ true) × ((tiocmget usb dev msr status).1 ≡ dev)
  unfolding tiocmget
  tiocmget_fails dev msr status h = ground (arith, usb.translate-error status h)

  -- A bit of a number that stands for a flag.
  abbrev pub Shows : ℕ → ℕ → Bool → Type 0
  Shows w place flag = w / place % 2 ≡ bit_value flag 1

  tiocm_word-Shows :
      (msr : Msr)
      → let w = tiocm_word usb msr in
        Shows w 2 msr.dtr
        × Shows w 4 msr.rts
        × Shows w 32 msr.cts
        × Shows w 256 msr.dsr
        × Shows w 128 msr.ri
        × Shows w 64 msr.dcd
  unfolding tiocm_word
  tiocm_word-Shows msr = ground arith

  -- A read that succeeds keeps the status, and gives each of the six lines at its TIOCM place in the
  -- result.
  pub tiocmget_lines :
      (dev : PrvDev) (msr : Msr)
      → let (ret, dev') = tiocmget usb dev msr (pos 0) in
        (w : ℕ) × (ret ≡ pos w)
        × (dev' ≡ record dev { msr = msr })
        × Shows w 2 msr.dtr
        × Shows w 4 msr.rts
        × Shows w 32 msr.cts
        × Shows w 256 msr.dsr
        × Shows w 128 msr.ri
        × Shows w 64 msr.dcd
  unfolding tiocmget
  tiocmget_lines dev msr =
      let (a, b, c, d, e, f) = tiocm_word-Shows msr in
      (tiocm_word usb msr, refl, refl, a, b, c, d, e, f)
