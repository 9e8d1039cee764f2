-- ===== src/PciEmu/Tests.antt =====
-- The driver on the emulated device at work.
use linux_kernel_ldd.Prelude.{◌+◌, ◌^◌, ◌≡◌, List, [], ◌∷◌, pos}
use linux_kernel_ldd.Kernel.Errno.{einval}
use linux_kernel_ldd.PciEmu.{PciEmuDevice}
use linux_kernel_ldd.PciEmu.Driven.{
  Access, mmioval_stored, prtioval_stored, mmioval_shown, prtioval_shown, accesses, word_accesses,
  words_of, accesses-word_accesses,
}

abbrev reset : PciEmuDevice
reset = record { mmio_val = 0; prtio_val = 7; notified = 0 }

-- Two numbers, of which the first is cut, and a text that is none.
abbrev uses : List Access
uses =
    mmioval_stored (record { ret = pos 0; value = 2 ^ 32 + 5 }) 11
    ∷ prtioval_stored (record { ret = pos 0; value = 9 }) 2
    ∷ mmioval_stored (record { ret = einval; value = 0 }) 4
    ∷ mmioval_shown
    ∷ prtioval_shown
    ∷ []

accesses-word_accesses_example :
    let (replies, last) = accesses reset uses in
    let (expected, words) = word_accesses (words_of reset) uses in
    (replies ≡ expected) × (words_of last ≡ words)
accesses-word_accesses_example = accesses-word_accesses reset uses
