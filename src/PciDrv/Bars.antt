-- ===== src/PciDrv/Bars.antt =====
-- What pci_drv.c uses of the device: two 32-bit words behind its BARs.
-- A word that is written is read back, and leaves the other one alone.
use linux_kernel_ldd.Prelude.{ℕ, ◌^◌, ◌<◌, ◌≡◌, ◌≢◌}

pub record Bars : Type 1 where
  pub Hw : Type 0
  pub write32 : Hw → ℕ → ℕ → Hw
  pub read32 : Hw → ℕ → ℕ
  pub read_write : (h : Hw) (bar v : ℕ) → v < 2 ^ 32 → read32 (write32 h bar v) bar ≡ v
  pub read_other :
      (h : Hw) (bar other v : ℕ)
      → bar < 2
      → other < 2
      → bar ≢ other
      → read32 (write32 h bar v) other ≡ read32 h other
