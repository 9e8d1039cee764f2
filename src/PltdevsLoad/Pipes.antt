-- ===== src/PltdevsLoad/Pipes.antt =====
-- The devices of 06.pltdevs_load/pltdevs_load.c with the driver 07.pltdrv/pltdrv.c.
use linux_kernel_ldd.Prelude.{
  ℕ, ◌+◌, ◌≡◌, refl, Option, none, some, List, [], ◌∷◌, ◌++◌, arith, pos, true,
}
use linux_kernel_ldd.Kernel.Kfifo.{Kfifo}
use linux_kernel_ldd.Kernelnewbies.Pipe.{Pipe, Shows}
use linux_kernel_ldd.Pltdrv.{PltdataFifo}
use linux_kernel_ldd.PltdrvPlain.{PlatformDevice, bare_devc, new_devc, setup_pltdrv_dev}
use linux_kernel_ldd.Pltdrv.Files.{World, Call, freed, ready, registers, sets_up, exec}
use linux_kernel_ldd.PltdrvPlain.Fops.{fops, kfifo_fops}
use linux_kernel_ldd.Pltdrv.Files.Histories.{asks_of, results_of, after, all_spare}
use linux_kernel_ldd.Pltdrv.Files.Pipes.{all_whole, pipe_results, results_of-pipe}
use linux_kernel_ldd.PltdevsLoad.{pltdata_fifo_0, pltdata_fifo_1, pltdevices}

module _ (k : Kfifo) (cleared : k.Fifo) (b_devnr : ℕ) where
  open k use {Fifo, fresh, kfifo_avail}

  -- The steps of a probe that succeeds, whose memory is at pointer `p`; without data the probe fails.
  abbrev pub probe_with_data : ℕ → ℕ → Option PltdataFifo → List (Call (fops k))
  probe_with_data p id none = []
  probe_with_data p id (some plt) =
      registers (bare_devc k cleared plt (b_devnr + id)) ∷ sets_up p (pos 0) ∷ []

  -- `platform_add_devices` has the driver probe each device in turn.
  abbrev pub probes_from : ℕ → List PlatformDevice → List (Call (fops k))
  probes_from p [] = []
  probes_from p (ofdev ∷ ofdevs) =
      probe_with_data p ofdev.id ofdev.platdata ++ probes_from (p + 1) ofdevs

  abbrev pub no_devices : World (fops k)
  no_devices = record { heap = λ p. freed; next = 0; cdevs = λ n. none; files = [] }

  unfoldable pub loaded : World (fops k)
  loaded = after (fops k) no_devices (probes_from 0 pltdevices)

  -- An empty pipe with the room of a FIFO of the size that is asked for.
  abbrev pub empty_pipe : PltdataFifo → Pipe
  empty_pipe plt = record { items = []; room = kfifo_avail (fresh plt.fsize) }

  new_devc-Shows :
      (plt : PltdataFifo) (devnr : ℕ)
      → Shows k (new_devc k cleared plt devnr).chars (empty_pipe plt)
  unfolding new_devc setup_pltdrv_dev
  new_devc-Shows plt devnr = record {
    items = k.contents-fresh plt.fsize;
    room = refl;
    write_free = refl;
    read_free = refl;
  }

  loaded_first : loaded.heap 0 ≡ ready (new_devc k cleared pltdata_fifo_0 (b_devnr + 0))
  unfolding loaded after exec new_devc setup_pltdrv_dev
  loaded_first = refl

  loaded_second : loaded.heap 1 ≡ ready (new_devc k cleared pltdata_fifo_1 (b_devnr + 1))
  unfolding loaded after exec new_devc setup_pltdrv_dev
  loaded_second = refl

  loaded_next : loaded.next ≡ 2
  unfolding loaded after exec new_devc setup_pltdrv_dev
  loaded_next = refl

  loaded_nodes : (loaded.cdevs b_devnr ≡ some 0) × (loaded.cdevs (b_devnr + 1) ≡ some 1)
  unfolding loaded after exec new_devc setup_pltdrv_dev
  loaded_nodes = (ground arith, ground arith)

  -- The two devices of the board code, bound by the driver of 07.pltdrv: their nodes have the first two
  -- numbers of the region, and from then on each device is an empty pipe with the room of its own FIFO. In
  -- every history in which neither goes, with each write of a whole buffer and each read into one, the calls
  -- through the files of each get what its pipe answers to them alone.
  pub pltdevices-pipe :
      (calls : List (Call (fops k)))
      → all_spare (fops k) 0 calls ≡ true
      → all_spare (fops k) 1 calls ≡ true
      → all_whole (asks_of (fops k) 0 loaded calls) ≡ true
      → all_whole (asks_of (fops k) 1 loaded calls) ≡ true
      → (loaded.cdevs b_devnr ≡ some 0)
        × (loaded.cdevs (b_devnr + 1) ≡ some 1)
        × (results_of (fops k) 0 loaded calls
            ≡ pipe_results (empty_pipe pltdata_fifo_0) (asks_of (fops k) 0 loaded calls))
        × (results_of (fops k) 1 loaded calls
            ≡ pipe_results (empty_pipe pltdata_fifo_1) (asks_of (fops k) 1 loaded calls))
  pltdevices-pipe calls stays0 stays1 whole0 whole1 =
      let (node0, node1) = loaded_nodes in
      (
        node0,
        node1,
        results_of-pipe k (kfifo_fops k) 0 (new_devc k cleared pltdata_fifo_0 (b_devnr + 0)) loaded
            calls (empty_pipe pltdata_fifo_0) loaded_first (rw loaded_next (omega arith)) stays0
            whole0 (new_devc-Shows pltdata_fifo_0 (b_devnr + 0)),
        results_of-pipe k (kfifo_fops k) 1 (new_devc k cleared pltdata_fifo_1 (b_devnr + 1)) loaded
            calls (empty_pipe pltdata_fifo_1) loaded_second (rw loaded_next (omega arith)) stays1
            whole1 (new_devc-Shows pltdata_fifo_1 (b_devnr + 1)),
      )
