-- ===== src/PciDrv/Probe.antt =====
-- pci_drv_probe and pci_drv_remove: what is held after them.
use linux_kernel_ldd.Prelude.{
  ◌≡◌, ◌≢◌, true, false, some, [], ◌∷◌, arith, if◌then◌else◌, pos, is_neg, is_nonzero,
}
use linux_kernel_ldd.Kernel.Replay.{iomap, held_after, held_after_both}
use linux_kernel_ldd.PciDrv.{Answers, pci_drv_probe, pci_drv_remove}

-- A probe that fails gives back all that it claimed, each object once, at whichever call it failed,
-- where the two mappings come both or neither.
pub pci_drv_probe_unwinds :
    (a : Answers)
    → a.iomap_mem ≡ a.iomap_prt
    → is_nonzero (pci_drv_probe a).0 ≡ true
    → held_after (pci_drv_probe a) ≡ some []
unfolding pci_drv_probe
pci_drv_probe_unwinds a same h = ground arith

-- After a successful probe `pci_drv_remove` gives back all of it, each object once.
pub pci_drv_remove-probe :
    (a : Answers)
    → (pci_drv_probe a).0 ≡ pos 0
    → held_after_both (pci_drv_probe a) pci_drv_remove ≡ some []
unfolding pci_drv_probe pci_drv_remove
pci_drv_remove-probe a h = ground arith

-- Where all calls before them succeed, and one of the two mappings comes and the other does not, the probe fails and leaves the one that
-- came mapped.
pub one_mapping_left :
    (a : Answers)
    → a.enable_device_mem ≡ pos 0
    → is_neg a.dma_set_mask ≡ false
    → a.request_regions ≡ pos 0
    → a.kzalloc ≡ true
    → a.iomap_mem ≢ a.iomap_prt
    → held_after (pci_drv_probe a) ≡ some ((if a.iomap_mem then iomap 0 else iomap 1) ∷ [])
unfolding pci_drv_probe
one_mapping_left a e d r k ne = ground arith
