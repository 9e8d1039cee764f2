-- ===== src/Pltdrv/Files/Tests.antt =====
-- The theorems about the open files of pltdrv_attr_dt.c at work.
use linux_kernel_ldd.Prelude.{
  ◌≡◌, refl, false, true, none, some, List, [], ◌∷◌, arith, ◌==◌, if◌then◌else◌, pos,
}
use linux_kernel_ldd.Kernel.Kfifo.{Store, store_kfifo}
use linux_kernel_ldd.Kernel.CharDriver.{CharDriver}
use linux_kernel_ldd.Pltdrv.{FifoPrvtDevc, setup_pltdrv_dev, write_fifo, read_fifo}
use linux_kernel_ldd.Pltdrv.Fops.{fops, kfifo_fops}
use linux_kernel_ldd.Pltdrv.Files.{
  World, Call, freed, ready, registers, sets_up, uninstalls, deletes, opens, closes, writes, reads,
  exec, faults, all_considerate, freed_used, used, open_fifo, write_file, read_file, write_at,
  read_at,
}
use linux_kernel_ldd.Pltdrv.Files.Live.{IsLive}
use linux_kernel_ldd.Pltdrv.Files.Safe.{files_stay_live, removed_under_file}
use linux_kernel_ldd.Pltdrv.Files.Apart.{puts, gets}
use linux_kernel_ldd.Pltdrv.Files.Histories.{asks_of, results_of}
use linux_kernel_ldd.Pltdrv.Files.Pipes.{all_whole, pipe_results, results_of-pipe}

abbrev driver : CharDriver
driver = fops store_kfifo

abbrev small : FifoPrvtDevc Store
small = record {
  chars = record {
    myfifo = record { bytes = []; room = 4 };
    read_access = false;
    write_access = false;
  };
  plt_data_prv = record { version = 1; fsize = 4 };
  devnr = 64;
}

abbrev no_devices : World driver
no_devices = record { heap = λ p. freed; next = 0; cdevs = λ n. none; files = [] }

-- The device goes after its file is closed.
abbrev calls : List (Call driver)
calls =
    registers small
    ∷ sets_up 0 (pos 0)
    ∷ opens 64
    ∷ writes 0 false (7 ∷ 8 ∷ []) 2
    ∷ closes 0
    ∷ uninstalls 0
    ∷ deletes 0
    ∷ opens 64
    ∷ reads 0 false 2 2
    ∷ []

calls_considerate : all_considerate driver no_devices calls ≡ true
unfolding all_considerate exec used setup_pltdrv_dev open_fifo write_file read_file write_at read_at
    write_fifo
calls_considerate = refl

no_devices-IsLive : IsLive driver no_devices
unfolding used
no_devices-IsLive = record {
  files = λ p h. ground (arith, h);
  below = λ p h. ground (arith, h);
  nodes = λ n p h. ground (arith, h);
}

files_stay_live_example : faults driver no_devices calls ≡ false
files_stay_live_example =
    files_stay_live driver no_devices calls no_devices-IsLive calls_considerate

-- One device at pointer 0, with one open file.
abbrev in_use : World driver
in_use = record {
  heap = λ p. if p == 0 then ready small else freed;
  next = 1;
  cdevs = λ n. if n == 64 then some 0 else none;
  files = some 0 ∷ [];
}

removed_under_file_example :
    let w' = (exec driver (exec driver in_use (uninstalls 0)).1 (deletes 0)).1 in
    ((exec driver w' (writes 0 false (7 ∷ []) 1)).0 ≡ freed_used)
    × ((exec driver w' (reads 0 false 1 1)).0 ≡ freed_used)
removed_under_file_example = removed_under_file driver in_use 0 0 small false (7 ∷ []) 1 1 refl refl

-- Two devices, at pointers 0 and 1, with nodes 64 and 65.
abbrev two_devices : World driver
two_devices = record {
  heap = λ p.
      if p == 0 then ready small else if p == 1 then ready (record small { devnr = 65 }) else freed;
  next = 2;
  cdevs = λ n. if n == 64 then some 0 else if n == 65 then some 1 else none;
  files = [];
}

-- Messages to both, of which that to the first is longer than its room; the second one goes.
abbrev mixed_calls : List (Call driver)
mixed_calls =
    opens 64
    ∷ opens 65
    ∷ writes 0 false (1 ∷ 2 ∷ 3 ∷ 4 ∷ 5 ∷ []) 5
    ∷ writes 1 false (9 ∷ []) 1
    ∷ opens 64
    ∷ reads 2 false 3 3
    ∷ uninstalls 1
    ∷ deletes 1
    ∷ reads 0 false 3 3
    ∷ []

mixed_asks_lem :
    asks_of driver 0 two_devices mixed_calls
    ≡ puts false (1 ∷ 2 ∷ 3 ∷ 4 ∷ 5 ∷ []) 5 ∷ gets false 3 3 ∷ gets false 3 3 ∷ []
unfolding asks_of exec open_fifo write_file read_file write_at read_at write_fifo read_fifo
mixed_asks_lem = refl

mixed_asks_whole : all_whole (asks_of driver 0 two_devices mixed_calls) ≡ true
mixed_asks_whole = rw mixed_asks_lem refl

results_of-pipe_example :
    results_of driver 0 two_devices mixed_calls
    ≡ pipe_results (record { items = []; room = 4 }) (asks_of driver 0 two_devices mixed_calls)
results_of-pipe_example =
    results_of-pipe store_kfifo (kfifo_fops store_kfifo) 0 small two_devices mixed_calls
      (record { items = []; room = 4 }) refl (omega arith) refl mixed_asks_whole
      (record { items = refl; room = refl; write_free = refl; read_free = refl })
