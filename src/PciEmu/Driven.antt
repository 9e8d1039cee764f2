-- ===== src/PciEmu/Driven.antt =====
-- The driver pci_drv.c on the emulated device of pci_dev_emu.c: histories of its attributes.
use linux_kernel_ldd.Prelude.{
  ℕ, ◌+◌, ◌%◌, ◌^◌, ◌≡◌, refl, ap, ◌∙◌, List, [], ◌∷◌, arith, if◌then◌else◌, ℤ, pos, is_nonzero,
}
use mathlib.Core.Path.{ap₂}
use linux_kernel_ldd.PciDrv.{Kstrtol, mmioval_store, mmioval_show, prtioval_store, prtioval_show}
use linux_kernel_ldd.PciEmu.{
  PciEmuDevice, emulated, guest_write32, guest_read32, mmio_write, mmio_read, prtio_write,
  prtio_read,
}

-- A text is stored in an attribute, for what `kstrtol` makes of it and its length; or an attribute is shown.
pub data Access : Type 0 where
  mmioval_stored : Kstrtol → ℕ → Access
  prtioval_stored : Kstrtol → ℕ → Access
  mmioval_shown : Access
  prtioval_shown : Access

pub data Reply : Type 0 where
  stored : ℤ → Reply
  shown : ℕ → Reply

abbrev reply_to_store : ℤ × PciEmuDevice → Reply × PciEmuDevice
reply_to_store (ret, dev) = (stored ret, dev)

pub access : PciEmuDevice → Access → Reply × PciEmuDevice
access dev (mmioval_stored parsed count) =
    reply_to_store (mmioval_store emulated.write32 emulated.read32 parsed count dev)
access dev (prtioval_stored parsed count) =
    reply_to_store (prtioval_store emulated.write32 emulated.read32 parsed count dev)
access dev mmioval_shown = (shown (mmioval_show emulated.write32 emulated.read32 dev), dev)
access dev prtioval_shown = (shown (prtioval_show emulated.write32 emulated.read32 dev), dev)

pub accesses : PciEmuDevice → List Access → List Reply × PciEmuDevice
unfolding access
accesses dev [] = ([], dev)
accesses dev (a ∷ more) =
    let (first, dev') = access dev a in
    let (rest, last) = accesses dev' more in (first ∷ rest, last)

-- Two words of 32 bits, and the interrupts so far.
pub record Words : Type 0 where
  pub mmio : ℕ
  pub prtio : ℕ
  pub interrupts : ℕ

-- What an access of two words promises: a text that is no number changes nothing; another one sets its word
-- to its low 32 bits and raises an interrupt.
abbrev pub word_access : Words → Access → Reply × Words
word_access w (mmioval_stored parsed count) =
    if is_nonzero parsed.ret then (stored parsed.ret, w) else (
      stored (pos count),
      record w { mmio = parsed.value % 2 ^ 32; interrupts = w.interrupts + 1 },
    )
word_access w (prtioval_stored parsed count) =
    if is_nonzero parsed.ret then (stored parsed.ret, w) else (
      stored (pos count),
      record w { prtio = parsed.value % 2 ^ 32; interrupts = w.interrupts + 1 },
    )
word_access w mmioval_shown = (shown w.mmio, w)
word_access w prtioval_shown = (shown w.prtio, w)

pub word_accesses : Words → List Access → List Reply × Words
word_accesses w [] = ([], w)
word_accesses w (a ∷ more) =
    let (first, w') = word_access w a in
    let (rest, last) = word_accesses w' more in (first ∷ rest, last)

-- The words that a device shows.
abbrev pub words_of : PciEmuDevice → Words
words_of dev = record {
  mmio = dev.mmio_val % 2 ^ 32;
  prtio = dev.prtio_val % 2 ^ 32;
  interrupts = dev.notified;
}

cut_twice : (n : ℕ) → (n % 2 ^ 32) % 2 ^ 32 ≡ n % 2 ^ 32
cut_twice n = omega arith

access_lem :
    (dev : PciEmuDevice) (a : Access)
    → let (mine, dev') = access dev a in
      let (its, w') = word_access (words_of dev) a in (mine ≡ its) × (words_of dev' ≡ w')
unfolding access mmioval_store prtioval_store mmioval_show prtioval_show guest_write32 guest_read32
    mmio_write mmio_read prtio_write prtio_read
access_lem dev (mmioval_stored parsed count) = ground (arith, cut_twice parsed.value)
access_lem dev (prtioval_stored parsed count) = ground (arith, cut_twice parsed.value)
access_lem dev mmioval_shown = (refl, refl)
access_lem dev prtioval_shown = (refl, refl)

-- The driver and the emulated device together are two words: in every history of the attributes each
-- store and each show gets what the two words give, and the device is left with their values and has sent
-- as many interrupts as there were stores of numbers.
pub accesses-word_accesses :
    (dev : PciEmuDevice) (more : List Access)
    → let (replies, last) = accesses dev more in
      let (expected, words) = word_accesses (words_of dev) more in
      (replies ≡ expected) × (words_of last ≡ words)
unfolding accesses word_accesses
accesses-word_accesses dev [] = (refl, refl)
accesses-word_accesses dev (a ∷ more) =
    let (same, words) = access_lem dev a in
    let (replies, last) = accesses-word_accesses (access dev a).1 more in
    (
      ap₂ ◌∷◌ same (replies ∙ ap (λ w. (word_accesses w more).0) words),
      last ∙ ap (λ w. (word_accesses w more).1) words,
    )
