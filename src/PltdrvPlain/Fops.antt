-- ===== src/PltdrvPlain/Fops.antt =====
-- The file operations of pltdrv.c.
use linux_kernel_ldd.Prelude.{ℕ, ◌≡◌, refl, Bool, List, ℤ, arith}
use linux_kernel_ldd.Kernel.CharDriver.{CharDriver}
use linux_kernel_ldd.Kernel.Kfifo.{Kfifo}
use linux_kernel_ldd.Kernel.KfifoDriver.{KfifoDriver}
use linux_kernel_ldd.Kernelnewbies
use linux_kernel_ldd.Pltdrv.{FifoPrvtDevc}
use linux_kernel_ldd.PltdrvPlain.{setup_pltdrv_dev, write_fifo, read_fifo}

pub devnr-setup_pltdrv_dev :
    (k : Kfifo) (alloc : ℤ) (dev : FifoPrvtDevc k.Fifo)
    → (setup_pltdrv_dev k alloc dev).1.devnr ≡ dev.devnr
unfolding setup_pltdrv_dev
devnr-setup_pltdrv_dev k alloc dev = ground arith

pub devnr-write_fifo :
    (k : Kfifo) (signal : Bool) (buf : List ℕ) (count : ℕ) (dev : FifoPrvtDevc k.Fifo)
    → (write_fifo k signal buf count dev).2.devnr ≡ dev.devnr
unfolding write_fifo
devnr-write_fifo k signal buf count dev = refl

pub devnr-read_fifo :
    (k : Kfifo) (signal : Bool) (room count : ℕ) (dev : FifoPrvtDevc k.Fifo)
    → (read_fifo k signal room count dev).2.devnr ≡ dev.devnr
unfolding read_fifo
devnr-read_fifo k signal room count dev = refl

-- `fops`, for pltdrv.c.
abbrev pub fops : Kfifo → CharDriver
fops k = record {
  Devc = FifoPrvtDevc k.Fifo;
  devnr = λ dev. dev.devnr;
  setup = setup_pltdrv_dev k;
  write = write_fifo k;
  read = read_fifo k;
  devnr-setup = devnr-setup_pltdrv_dev k;
  devnr-write = devnr-write_fifo k;
  devnr-read = devnr-read_fifo k;
}

pub chars-write_fifo :
    (k : Kfifo) (signal : Bool) (buf : List ℕ) (count : ℕ) (dev : FifoPrvtDevc k.Fifo)
    → let (out, bytes, dev') = write_fifo k signal buf count dev in
      let (out', bytes', s) = Kernelnewbies.write_fifo k signal buf count dev.chars in
      (out ≡ out') × (bytes ≡ bytes') × (dev'.chars ≡ s)
unfolding write_fifo
chars-write_fifo k signal buf count dev = (refl, refl, refl)

pub chars-read_fifo :
    (k : Kfifo) (signal : Bool) (room count : ℕ) (dev : FifoPrvtDevc k.Fifo)
    → let (out, bytes, dev') = read_fifo k signal room count dev in
      let (out', bytes', s) = Kernelnewbies.read_fifo k signal room count dev.chars in
      (out ≡ out') × (bytes ≡ bytes') × (dev'.chars ≡ s)
unfolding read_fifo
chars-read_fifo k signal room count dev = (refl, refl, refl)

abbrev pub kfifo_fops : (k : Kfifo) → KfifoDriver k
kfifo_fops k = record {
  driver = fops k;
  chars = λ dev. dev.chars;
  chars-write = chars-write_fifo k;
  chars-read = chars-read_fifo k;
}
