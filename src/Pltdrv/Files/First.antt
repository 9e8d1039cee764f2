-- ===== src/Pltdrv/Files/First.antt =====
-- A new device of pltdrv_attr_dt.c and the first message through its files.
use linux_kernel_ldd.Prelude.{
  ℕ, ◌≡◌, ◌≤◌, ◌+◌, ap, ◌∙◌, refl, false, some, List, length, pos, put_self,
}
use mathlib.Core.Path.{ap₂}
use linux_kernel_ldd.Kernel.Kfifo.{Kfifo}
use linux_kernel_ldd.Kernelnewbies.{returned}
use linux_kernel_ldd.Kernelnewbies.Echo.{read-write_fresh}
use linux_kernel_ldd.Pltdrv.{
  PltdataFifo, setup_pltdrv_dev, bare_devc, new_devc, write_fifo, read_fifo,
}
use linux_kernel_ldd.Pltdrv.Fops.{fops}
use linux_kernel_ldd.Pltdrv.Files.{
  replied, unset, ready, World, registers, registered, sets_up, opens, writes, reads, exec, put,
}
use linux_kernel_ldd.Pltdrv.Files.Steps.{registers-sets_up}
use linux_kernel_ldd.Pltdrv.Files.Shared.{opened_files_share}

module _ (k : Kfifo) where
  open k use {Fifo}

  new_devc-echo :
      (cleared : Fifo) (plt : PltdataFifo) (devnr : ℕ) (buf : List ℕ)
      → length buf ≤ plt.fsize
      → let (out, taken, dev') =
          write_fifo k false buf (length buf) (new_devc k cleared plt devnr) in
        let (out', given, dev'') = read_fifo k false (length buf) (length buf) dev' in
        (out ≡ returned (pos (length buf))) × (out' ≡ returned (pos (length buf))) × (given ≡ buf)
  unfolding new_devc write_fifo read_fifo
  new_devc-echo cleared plt devnr buf fits =
      let echo = read-write_fresh k plt.fsize buf fits in (echo.0, echo.1, echo.2)

  -- A device is bound and its node is opened twice: a first message of at most the size that its data ask
  -- for goes in through the first file as a whole, and a read of as many bytes through the second file
  -- gives it back.
  pub first_message :
      (w : World (fops k)) (cleared : Fifo) (plt : PltdataFifo) (devnr : ℕ) (buf : List ℕ)
      → length buf ≤ plt.fsize
      → let n : ℕ = length buf in
        let i : ℕ = length w.files in
        let run = exec (fops k) in
        let w1 =
          (run (run w (registers (bare_devc k cleared plt devnr))).1 (sets_up w.next (pos 0))).1 in
        let (wrote, w2) =
          run (run (run w1 (opens devnr)).1 (opens devnr)).1 (writes i false buf n) in
        let (got, w3) = run w2 (reads (i + 1) false n n) in
        ((bytes : List ℕ) × (wrote ≡ replied (returned (pos n)) bytes))
        × (got ≡ replied (returned (pos n)) buf)
  unfolding bare_devc setup_pltdrv_dev new_devc
  first_message w cleared plt devnr buf fits =
      let n : ℕ = length buf in
      let run = exec (fops k) in
      let bare = bare_devc k cleared plt devnr in
      let dev = new_devc k cleared plt devnr in
      let probed = registers-sets_up (fops k) w (pos 0) bare refl in
      let before = put w.heap w.next (unset bare) in
      let bound : World (fops k) = record (registered (fops k) bare w) {
        heap = put before w.next (ready dev);
      } in
      let shared =
        opened_files_share (fops k) bound devnr w.next dev false buf n n n
          (put_self w.cdevs devnr (some w.next)) (put_self before w.next (ready dev)) in
      let echo = new_devc-echo cleared plt devnr buf fits in
      let (out, taken, dev') = write_fifo k false buf n dev in
      let wrote = λ (v : World (fops k)).
        (run (run (run v (opens devnr)).1 (opens devnr)).1 (writes (length w.files) false buf n)) in
      (
        (taken, ap (λ v. (wrote v).0) probed ∙ shared.0 ∙ ap (λ r. replied r taken) echo.0),
        ap (λ v. (run (wrote v).1 (reads (length w.files + 1) false n n)).0) probed
            ∙ shared.1
            ∙ ap₂ replied echo.1 echo.2,
      )
