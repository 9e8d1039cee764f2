-- ===== src/PltdrvPlain/Echo.antt =====
-- A device of 07.pltdrv, from its probe to the first bytes through it.
use linux_kernel_ldd.Prelude.{ℕ, ◌≤◌, ◌≡◌, false, List, [], length, pos}
use linux_kernel_ldd.Kernel.Kfifo.{Kfifo}
use linux_kernel_ldd.Kernelnewbies.{returned}
use linux_kernel_ldd.Kernelnewbies.Echo.{read-write_fresh}
use linux_kernel_ldd.Pltdrv.{PltdataFifo}
use linux_kernel_ldd.PltdrvPlain.{new_devc, write_fifo, read_fifo}

module _ (k : Kfifo) where
  open k use {Fifo, contents}

  -- A device that was just bound takes a first message of at most the size that its data ask for as a
  -- whole, and a read of as many bytes gives that message back.
  pub read-write_new :
      (cleared : Fifo) (plt : PltdataFifo) (devnr : ℕ) (buf : List ℕ)
      → length buf ≤ plt.fsize
      → let (wrote, taken, d1) =
          write_fifo k false buf (length buf) (new_devc k cleared plt devnr) in
        let (got, given, d2) = read_fifo k false (length buf) (length buf) d1 in
        (wrote ≡ returned (pos (length buf)))
        × (got ≡ returned (pos (length buf)))
        × (given ≡ buf)
        × (contents d2.chars.myfifo ≡ [])
  unfolding new_devc write_fifo read_fifo
  read-write_new cleared plt devnr buf fits = read-write_fresh k plt.fsize buf fits
