-- ===== src/Pltdrv/Files/Pipes.antt =====
-- The devices of pltdrv.c, pltdrv_attr.c and pltdrv_attr_dt.c as pipes that know nothing of each other,
-- through all their open files.
use linux_kernel_ldd.Prelude.{
  ℕ, ◌<◌, ◌≡◌, refl, Bool, true, ◌&&◌, List, [], ◌∷◌, arith, ap, ◌∙◌, ◌==◌, ==_iff, length,
}
use mathlib.Core.Path.{ap₂}
use linux_kernel_ldd.Kernel.Kfifo.{Kfifo}
use linux_kernel_ldd.Kernel.KfifoDriver.{KfifoDriver}
use linux_kernel_ldd.Kernelnewbies.Pipe.{
  Pipe, Answer, pipe_answer, call_answer, Shows, call_answer-Shows,
}
use linux_kernel_ldd.Kernelnewbies.Pipe
use linux_kernel_ldd.Pltdrv.Files.{Result, replied, ready, World, Call}
use linux_kernel_ldd.Pltdrv.Files.Apart.{Ask, puts, gets, serve}
use linux_kernel_ldd.Pltdrv.Files.Histories.{
  serve_all, asks_of, results_of, all_spare, results_of-serve_all,
}

-- A write of a whole buffer, and a read into one.
abbrev pub is_whole : Ask → Bool
is_whole (puts signal buf count) = count == length buf
is_whole (gets signal room count) = room == count

abbrev pub all_whole : List Ask → Bool
all_whole [] = true
all_whole (a ∷ asks) = is_whole a && all_whole asks

-- What a pipe answers.
abbrev pub pipe_result : Pipe → Ask → Result × Pipe
pipe_result q (puts signal buf count) =
    let (answer, q') = pipe_answer q (Pipe.puts signal buf) in
    (replied answer.reply answer.taken, q')
pipe_result q (gets signal room count) =
    let (answer, q') = pipe_answer q (Pipe.gets signal count) in
    (replied answer.reply answer.given, q')

pub pipe_results : Pipe → List Ask → List Result
pipe_results q [] = []
pipe_results q (a ∷ asks) = let (first, next) = pipe_result q a in first ∷ pipe_results next asks

module _ (k : Kfifo) (d : KfifoDriver k) where
  open d use {driver, chars}
  open driver use {Devc}

  serve_pipe :
      (dev : Devc) (q : Pipe) (a : Ask)
      → is_whole a ≡ true
      → Shows k (chars dev) q
      → ((serve driver a dev).0 ≡ (pipe_result q a).0)
        × Shows k (chars (serve driver a dev).1) (pipe_result q a).1
  unfolding call_answer
  serve_pipe dev q (puts signal buf count) e h =
      let (same, shows) = call_answer-Shows k (chars dev) q (Pipe.puts signal buf) h in
      let (out, bytes, left) = d.chars-write signal buf (length buf) dev in
      rw ((==_iff count (length buf)).0 e)
        (ap₂ replied (out ∙ ap Answer.reply same) (bytes ∙ ap Answer.taken same), rw left shows)
  serve_pipe dev q (gets signal room count) e h =
      let (same, shows) = call_answer-Shows k (chars dev) q (Pipe.gets signal count) h in
      let (out, bytes, left) = d.chars-read signal count count dev in
      rw ((==_iff room count).0 e)
        (ap₂ replied (out ∙ ap Answer.reply same) (bytes ∙ ap Answer.given same), rw left shows)

  serve_all-pipe_results :
      (dev : Devc) (q : Pipe) (asks : List Ask)
      → all_whole asks ≡ true
      → Shows k (chars dev) q
      → (serve_all driver asks dev).0 ≡ pipe_results q asks
  unfolding serve_all pipe_results
  serve_all-pipe_results dev q [] e h = refl
  serve_all-pipe_results dev q (a ∷ asks) e h =
      let (same, shows) = serve_pipe dev q a (ground (arith, e)) h in
      ap₂ ◌∷◌ same (
        serve_all-pipe_results (serve driver a dev).1 (pipe_result q a).1 asks (ground (arith, e))
          shows)

  -- Each device of a driver with the reads and writes of kernelnewbies.c is a pipe: where a device is ready
  -- and shows a pipe, in every history in which its remove does not begin, the calls through all its open
  -- files, each write of a whole buffer and each read into one, get what the pipe answers to these calls
  -- alone, whatever is done to the other devices meanwhile, and however files are opened and closed.
  pub results_of-pipe :
      (p : ℕ) (dev : Devc) (w : World driver) (calls : List (Call driver)) (q : Pipe)
      → w.heap p ≡ ready dev
      → p < w.next
      → all_spare driver p calls ≡ true
      → all_whole (asks_of driver p w calls) ≡ true
      → Shows k (chars dev) q
      → results_of driver p w calls ≡ pipe_results q (asks_of driver p w calls)
  results_of-pipe p dev w calls q at lt s e h =
      (results_of-serve_all driver p dev w calls at lt s).0
      ∙ serve_all-pipe_results dev q (asks_of driver p w calls) e h
