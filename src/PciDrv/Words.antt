-- ===== src/PciDrv/Words.antt =====
-- The attributes of pci_drv.c over any device with two words.
use linux_kernel_ldd.Prelude.{ℕ, ◌%◌, ◌^◌, ◌≡◌, arith, pos}
use linux_kernel_ldd.PciDrv.{Kstrtol, mmioval_store, mmioval_show, prtioval_store, prtioval_show}
use linux_kernel_ldd.PciDrv.Bars.{Bars}

module _ (b : Bars) where
  open b use {Hw, write32, read32}

  -- A number that is stored in the attribute of memory space is what it shows, cut to 32 bits, and the
  -- other attribute shows what it did; the store reports all of its text as used.
  pub mmioval_show-store :
      (parsed : Kstrtol) (count : ℕ) (hw : Hw)
      → parsed.ret ≡ pos 0
      → let (ret, hw') = mmioval_store write32 read32 parsed count hw in
        (ret ≡ pos count)
        × (mmioval_show write32 read32 hw' ≡ parsed.value % 2 ^ 32)
        × (prtioval_show write32 read32 hw' ≡ prtioval_show write32 read32 hw)
  unfolding mmioval_store mmioval_show prtioval_show
  mmioval_show-store parsed count hw h =
      let low = b.read_write hw 0 (parsed.value % 2 ^ 32) (omega arith) in
      let other =
        b.read_other hw 0 1 (parsed.value % 2 ^ 32) (omega arith) (omega arith) (omega arith) in
      ground (arith, low, other)

  -- The same for the word in port space.
  pub prtioval_show-store :
      (parsed : Kstrtol) (count : ℕ) (hw : Hw)
      → parsed.ret ≡ pos 0
      → let (ret, hw') = prtioval_store write32 read32 parsed count hw in
        (ret ≡ pos count)
        × (prtioval_show write32 read32 hw' ≡ parsed.value % 2 ^ 32)
        × (mmioval_show write32 read32 hw' ≡ mmioval_show write32 read32 hw)
  unfolding prtioval_store mmioval_show prtioval_show
  prtioval_show-store parsed count hw h =
      let low = b.read_write hw 1 (parsed.value % 2 ^ 32) (omega arith) in
      let other =
        b.read_other hw 1 0 (parsed.value % 2 ^ 32) (omega arith) (omega arith) (omega arith) in
      ground (arith, low, other)
