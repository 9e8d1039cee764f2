-- ===== src/PciDrv.antt =====
-- linux-device-drivers/20.pci-driver/pci_drv.c: the driver of the emulated PCI device, with one
-- attribute for each of its words.
pub mod Bars
pub mod Words
pub mod Probe
use linux_kernel_ldd.Prelude.{
  ℕ, ◌%◌, ◌^◌, Bool, true, false, not, ◌||◌, [], ◌∷◌, if◌then◌else◌, ℤ, pos, is_neg, is_nonzero,
  List,
}
use linux_kernel_ldd.Kernel.Errno.{enomem, eio}
use linux_kernel_ldd.Kernel.Replay.{
  pci_enabled, pci_regions, iomap, irq_vectors, irq, sysfs_group, Log, Outcome, release, claims,
  frees, stop,
}

abbrev pub pci_device_memio_bar : ℕ
pci_device_memio_bar = 0

abbrev pub pci_device_prtio_bar : ℕ
pci_device_prtio_bar = 1

-- What `kstrtol` gives: its result, and the number as a bit pattern of 64 bits.
pub record Kstrtol : Type 0 where
  pub ret : ℤ
  pub value : ℕ

-- `iowrite32` takes an `u32` of the `long`.
abbrev store_bar : {Hw : Type 0} → (Hw → ℕ → ℕ → Hw) → ℕ → Kstrtol → ℕ → Hw → ℤ × Hw
store_bar write32 bar parsed count hw =
    if is_nonzero parsed.ret
    then (parsed.ret, hw)
    else (pos count, write32 hw bar (parsed.value % 2 ^ 32))

module _ {Hw : Type 0} (write32 : Hw → ℕ → ℕ → Hw) (read32 : Hw → ℕ → ℕ) where
  -- `mmioval_store`.
  unfoldable pub mmioval_store : Kstrtol → ℕ → Hw → ℤ × Hw
  mmioval_store = store_bar write32 pci_device_memio_bar

  -- `prtioval_store`.
  unfoldable pub prtioval_store : Kstrtol → ℕ → Hw → ℤ × Hw
  prtioval_store = store_bar write32 pci_device_prtio_bar

  -- `mmioval_show` and `prtioval_show`: the number that each prints.
  unfoldable pub mmioval_show : Hw → ℕ
  mmioval_show hw = read32 hw pci_device_memio_bar

  unfoldable pub prtioval_show : Hw → ℕ
  prtioval_show hw = read32 hw pci_device_prtio_bar

-- What the kernel answers to each call of `pci_drv_probe`. `pci_alloc_irq_vectors` returns the number
-- of vectors.
pub record Answers : Type 0 where
  pub enable_device_mem : ℤ
  pub dma_set_mask : ℤ
  pub request_regions : ℤ
  pub kzalloc : Bool
  pub iomap_mem : Bool
  pub iomap_prt : Bool
  pub alloc_irq_vectors : ℤ
  pub request_irq : ℤ
  pub sysfs_create_group : ℤ

-- The labels of `pci_drv_probe`.
abbrev pub err_dma_set : ℤ → Outcome
err_dma_set ret = frees pci_enabled (stop ret)

abbrev pub err_iomap : ℤ → Outcome
err_iomap ret = frees pci_regions (err_dma_set ret)

abbrev pub err_irq_vec : ℤ → Outcome
err_irq_vec ret = frees (iomap 0) (frees (iomap 1) (err_iomap ret))

abbrev pub err_req_irq : ℤ → Outcome
err_req_irq ret = frees irq_vectors (err_irq_vec ret)

abbrev pub err_sysfs_grp : ℤ → Outcome
err_sysfs_grp ret = frees irq (err_req_irq ret)

-- A mapping is claimed only where `pci_iomap` gives one.
abbrev pub maps : Bool → ℕ → Outcome → Outcome
maps true n out = claims (iomap n) out
maps false n out = out

-- `pci_drv_probe` from the test of the mappings on.
pub probe_irq : Answers → Outcome
probe_irq a =
    if not a.iomap_mem || not a.iomap_prt
    then err_iomap eio
    else if is_neg a.alloc_irq_vectors
    then err_irq_vec a.alloc_irq_vectors
    else claims irq_vectors (
        if is_nonzero a.request_irq
        then err_req_irq a.request_irq
        else claims irq (
            if is_nonzero a.sysfs_create_group
            then err_sysfs_grp a.sysfs_create_group
            else claims sysfs_group (stop (pos 0))))

-- `pci_drv_probe`.
pub pci_drv_probe : Answers → Outcome
unfolding probe_irq
pci_drv_probe a =
    if is_nonzero a.enable_device_mem
    then stop a.enable_device_mem
    else claims pci_enabled (
        if is_neg a.dma_set_mask
        then err_dma_set a.dma_set_mask
        else if is_nonzero a.request_regions
        then err_dma_set a.request_regions
        else claims pci_regions (
            if not a.kzalloc
            then err_iomap enomem
            else maps a.iomap_mem 0 (maps a.iomap_prt 1 (probe_irq a))))

-- `pci_drv_remove`.
pub pci_drv_remove : Log
pci_drv_remove =
    release sysfs_group
    ∷ release irq
    ∷ release irq_vectors
    ∷ release (iomap 0)
    ∷ release (iomap 1)
    ∷ release pci_regions
    ∷ release pci_enabled
    ∷ []

-- `pci_dev_table`: the vendor and the device of its one entry.
abbrev pub pci_dev_table : List (ℕ × ℕ)
pci_dev_table = (0x1234, 0xaabb) ∷ []
