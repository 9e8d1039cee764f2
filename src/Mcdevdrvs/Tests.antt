-- ===== src/Mcdevdrvs/Tests.antt =====
-- The theorems about mcdevdrvs.c at work on two small devices.
use linux_kernel_ldd.Prelude.{◌≡◌, refl, inl, inr, false, none, List, [], ◌∷◌, pos}
use linux_kernel_ldd.Kernel.Errno.{enomem}
use linux_kernel_ldd.Kernel.Kfifo.{Store, store_kfifo}
use linux_kernel_ldd.Kernel.Replay.{held_after}
use linux_kernel_ldd.Mcdevdrvs.{Answers, Devcs, mcdevdrvs_init}
use linux_kernel_ldd.Kernelnewbies.Pipe.{Pipe, puts, gets, pipe_answers}
use linux_kernel_ldd.Mcdevdrvs.Pipes.{MinorAsk, answers_of, asks_of, answers_of-pipe}
use linux_kernel_ldd.Mcdevdrvs.Setup.{mcdevdrvs_init_overruns}

abbrev empty_devcs : Devcs Store
empty_devcs minor = record {
  myfifo = record { bytes = []; room = 2 };
  read_access = false;
  write_access = false;
}

abbrev two_pipe : Pipe
two_pipe = record { items = []; room = 2 }

abbrev both_asks : List MinorAsk
both_asks =
    (0, puts false (1 ∷ 2 ∷ 3 ∷ []))
    ∷ (1, puts false (9 ∷ []))
    ∷ (0, gets false 1)
    ∷ (1, gets false 4)
    ∷ []

answers_of-pipe_example :
    answers_of store_kfifo 1 empty_devcs both_asks ≡ pipe_answers two_pipe (asks_of 1 both_asks)
answers_of-pipe_example =
    answers_of-pipe store_kfifo 1 empty_devcs two_pipe both_asks
      (record { items = refl; room = refl; write_free = refl; read_free = refl })

abbrev all_well : Answers
all_well = record {
  alloc_chrdev_region = pos 0;
  class_create = pos 0;
  device_create = λ n. pos 0;
  cdev_add = λ n. pos 0;
  kfifo_alloc = λ n. pos 0;
}

abbrev no_fifo : Answers
no_fifo = record all_well { kfifo_alloc = λ n. enomem }

mcdevdrvs_init_overruns_example : held_after (mcdevdrvs_init no_fifo) ≡ none
mcdevdrvs_init_overruns_example =
    mcdevdrvs_init_overruns no_fifo (record { region = refl; classed = refl })
      (inr (inr (inr (inr (inl refl)))))
