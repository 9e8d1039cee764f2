-- ===== src/PltdevsLoad/Tests.antt =====
-- The devices of pltdevs_load.c at work.
use linux_kernel_ldd.Prelude.{◌≡◌, refl, true, false, some, List, [], ◌∷◌}
use linux_kernel_ldd.Kernel.Kfifo.{Store, store_kfifo}
use linux_kernel_ldd.PltdrvPlain.{new_devc, setup_pltdrv_dev}
use linux_kernel_ldd.PltdrvPlain.Fops.{fops}
use linux_kernel_ldd.Pltdrv.Files.{
  World, Call, opens, closes, writes, reads, exec, open_fifo, write_file, read_file, write_at,
  read_at,
}
use linux_kernel_ldd.Pltdrv.Files.Histories.{asks_of, results_of, after}
use linux_kernel_ldd.Pltdrv.Files.Pipes.{all_whole, pipe_results}
use linux_kernel_ldd.PltdevsLoad.{pltdata_fifo_0, pltdata_fifo_1}
use linux_kernel_ldd.PltdevsLoad.Pipes.{loaded, empty_pipe, pltdevices-pipe}

abbrev unused : Store
unused = record { bytes = []; room = 0 }

abbrev bound : World (fops store_kfifo)
bound = loaded store_kfifo unused 64

-- A message to each device, and a read from the second one.
abbrev messages : List (Call (fops store_kfifo))
messages =
    opens 64
    ∷ opens 65
    ∷ writes 0 false (1 ∷ 2 ∷ []) 2
    ∷ writes 1 false (9 ∷ []) 1
    ∷ reads 1 false 3 3
    ∷ closes 0
    ∷ []

messages_whole :
    (all_whole (asks_of (fops store_kfifo) 0 bound messages) ≡ true)
    × (all_whole (asks_of (fops store_kfifo) 1 bound messages) ≡ true)
unfolding asks_of exec open_fifo write_file read_file write_at read_at loaded after new_devc
    setup_pltdrv_dev
messages_whole = (refl, refl)

pltdevices-pipe_example :
    (bound.cdevs 64 ≡ some 0)
    × (bound.cdevs 65 ≡ some 1)
    × (results_of (fops store_kfifo) 0 bound messages
        ≡ pipe_results
            (empty_pipe store_kfifo unused 64 pltdata_fifo_0)
            (asks_of (fops store_kfifo) 0 bound messages))
    × (results_of (fops store_kfifo) 1 bound messages
        ≡ pipe_results
            (empty_pipe store_kfifo unused 64 pltdata_fifo_1)
            (asks_of (fops store_kfifo) 1 bound messages))
pltdevices-pipe_example =
    pltdevices-pipe store_kfifo unused 64 messages refl refl messages_whole.0 messages_whole.1
