-- ===== src/PciEmu.antt =====
-- linux-device-drivers/19.Qemu-pci-dev-creation/pci_dev_emu.c: the PCI device that the emulator adds,
-- with a word of memory space and a word of port space. A write raises a message-signalled interrupt.
pub mod Driven
mod Tests
use linux_kernel_ldd.Prelude.{
  refl, pos, ℤ, is_nonzero, [], ◌∷◌, ◌++◌, ℕ, ◌+◌, ◌%◌, ◌^◌, ◌≤◌, ◌<◌, ◌≡◌, ◌≢◌, Bool, ◌&&◌, Option,
  none, some, arith, leb, ◌==◌, if◌then◌else◌,
}
use linux_kernel_ldd.Kernel.Replay.{replay, region, msi, Log, acquire, release}
use linux_kernel_ldd.PciDrv.{pci_dev_table}
use linux_kernel_ldd.PciDrv.Bars.{Bars}

-- `PCIEmuDevice`, with the number of interrupts sent by `msi_notify`.
pub record PciEmuDevice : Type 0 where
  pub mmio_val : ℕ
  pub prtio_val : ℕ
  pub notified : ℕ

abbrev pub access_ok : ℕ → Bool
access_ok size = leb 4 size && leb size 8

-- `pci_emu_dev_mmio_read`. It and the three others ignore the address of the access.
pub mmio_read : PciEmuDevice → ℕ → ℕ
mmio_read ped size = if access_ok size then ped.mmio_val else 0

-- `pci_emu_dev_mmio_write`; `none` is the failed `assert`.
pub mmio_write : PciEmuDevice → ℕ → ℕ → Option PciEmuDevice
mmio_write dev val size =
    if access_ok size
    then some (record dev { mmio_val = val; notified = dev.notified + 1 })
    else none

-- `pci_emu_dev_prtio_read`.
pub prtio_read : PciEmuDevice → ℕ → ℕ
prtio_read dev size = if access_ok size then dev.prtio_val else 0

-- `pci_emu_dev_prtio_write`.
pub prtio_write : PciEmuDevice → ℕ → ℕ → Option PciEmuDevice
prtio_write dev val size =
    if access_ok size
    then some (record dev { prtio_val = val; notified = dev.notified + 1 })
    else none

-- `min_access_size` and `max_access_size` of both regions: the emulator makes no other access.
abbrev pub min_access_size : ℕ
min_access_size = 4

abbrev pub max_access_size : ℕ
max_access_size = 8

-- `iowrite32` by the guest is an access of 4 bytes to the region of the BAR, 0 for memory and 1 for
-- ports; `ioread32` takes the low 32 bits.
pub guest_write32 : PciEmuDevice → ℕ → ℕ → Option PciEmuDevice
guest_write32 dev bar val = if bar == 0 then mmio_write dev val 4 else prtio_write dev val 4

pub guest_read32 : PciEmuDevice → ℕ → ℕ
guest_read32 dev bar = (if bar == 0 then mmio_read dev 4 else prtio_read dev 4) % 2 ^ 32

abbrev pub emu_memiospace_size : ℕ
emu_memiospace_size = 8

abbrev pub emu_prtiospace_size : ℕ
emu_prtiospace_size = 8

-- `pci_emu_dev_realize`, for the result of `msi_init`, which is not passed on. The regions are 0 for
-- memory and 1 for ports, as the BARs that get them.
pub pci_emu_dev_realize : ℤ → Log
pci_emu_dev_realize msi_init =
    acquire (region 0) ∷ acquire (region 1) ∷ (if is_nonzero msi_init then [] else acquire msi ∷ [])

-- `pci_emu_dev_exit`. The regions go with the device object.
pub pci_emu_dev_exit : Log
pci_emu_dev_exit = release msi ∷ []

abbrev pub or_same : PciEmuDevice → Option PciEmuDevice → PciEmuDevice
or_same dev none = dev
or_same dev (some dev') = dev'

-- No access of a size that the regions admit makes the emulator stop, and each sends one interrupt.
pub write_admitted :
    (dev : PciEmuDevice) (val size : ℕ)
    → min_access_size ≤ size
    → size ≤ max_access_size
    → (mmio_write dev val size ≡ some (record dev { mmio_val = val; notified = dev.notified + 1 }))
      × (prtio_write dev val size
          ≡ some (record dev { prtio_val = val; notified = dev.notified + 1 }))
unfolding mmio_write prtio_write
write_admitted dev val size low high = (ground arith, ground arith)

pub emu_read_write :
    (dev : PciEmuDevice) (bar val : ℕ)
    → val < 2 ^ 32
    → guest_read32 (or_same dev (guest_write32 dev bar val)) bar ≡ val
unfolding guest_read32 guest_write32 mmio_read mmio_write prtio_read prtio_write
emu_read_write dev bar val h = ground arith

pub emu_read_other :
    (dev : PciEmuDevice) (bar other val : ℕ)
    → bar < 2
    → other < 2
    → bar ≢ other
    → guest_read32 (or_same dev (guest_write32 dev bar val)) other ≡ guest_read32 dev other
unfolding guest_read32 guest_write32 mmio_read mmio_write prtio_read prtio_write
emu_read_other dev bar other val h k ne = ground arith

-- After realize and exit the device object has its two regions left, where the interrupt could be set
-- up.
realize-exit :
    replay (pci_emu_dev_realize (pos 0) ++ pci_emu_dev_exit) ≡ some (region 1 ∷ region 0 ∷ [])
unfolding pci_emu_dev_realize pci_emu_dev_exit
realize-exit = refl

-- The emulated device is a device as the driver takes it.
abbrev pub emulated : Bars
emulated = record {
  Hw = PciEmuDevice;
  write32 = λ dev bar val. or_same dev (guest_write32 dev bar val);
  read32 = guest_read32;
  read_write = emu_read_write;
  read_other = emu_read_other;
}

abbrev pub custom_device_id : ℕ
custom_device_id = 0xaabb

abbrev pub custom_pciclss_ver : ℕ
custom_pciclss_ver = 0

-- What `pci_emu_dev_cls_init` sets of `PCIDeviceClass`, for the emulator's vendor number and its class
-- number of other devices.
pub record PciDeviceClass : Type 0 where
  pub vendor_id : ℕ
  pub device_id : ℕ
  pub class_id : ℕ
  pub revision : ℕ

pub pci_emu_dev_cls_init : ℕ → ℕ → PciDeviceClass
pci_emu_dev_cls_init pci_vendor_id_qemu pci_class_others = record {
  vendor_id = pci_vendor_id_qemu;
  device_id = custom_device_id;
  class_id = pci_class_others;
  revision = custom_pciclss_ver;
}

-- With the emulator's vendor number 0x1234 the one entry of the driver's table is the emulated device.
pub cls_init-pci_dev_table :
    (pci_vendor_id_qemu pci_class_others : ℕ)
    → pci_vendor_id_qemu ≡ 0x1234
    → let cls = pci_emu_dev_cls_init pci_vendor_id_qemu pci_class_others in
      pci_dev_table ≡ (cls.vendor_id, cls.device_id) ∷ []
unfolding pci_emu_dev_cls_init
cls_init-pci_dev_table pci_vendor_id_qemu pci_class_others qemu = rw qemu refl
