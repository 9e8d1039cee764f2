-- ===== src/Kernelnewbies/Pipe.antt =====
-- kernelnewbies.c as a bounded pipe of bytes that never waits: what its reads and writes promise to
-- processes that give good buffers.
use linux_kernel_ldd.Prelude.{
  ℕ, ◌+◌, ◌-◌, min, ◌≡◌, refl, Bool, false, List, [], ◌∷◌, ◌++◌, arith, length, take, drop, pos,
}
use mathlib.Core.Path.{ap₂}
use linux_kernel_ldd.Kernel.Kfifo.{Kfifo}
use linux_kernel_ldd.Kernel.Moves.{put_moves, get_moves}
use linux_kernel_ldd.Kernelnewbies.{State, Reply, returned, write_fifo, read_fifo}

-- A pipe with the bytes in it, and the room left.
pub record Pipe : Type 0 where
  pub items : List ℕ
  pub room : ℕ

-- A message is put, or some bytes are asked for; a signal may be pending.
pub data Ask : Type 0 where
  puts : Bool → List ℕ → Ask
  gets : Bool → ℕ → Ask

-- What a caller gets, and the bytes that go in and come out.
pub record Answer : Type 0 where
  pub reply : Reply
  pub taken : List ℕ
  pub given : List ℕ

-- As much of a message goes in as there is room for, and all of it is reported as written.
abbrev pub pipe_answer : Pipe → Ask → Answer × Pipe
pipe_answer p (puts signal buf) =
    let n : ℕ = min (length buf) p.room in
    (
      record { reply = returned (pos (length buf)); taken = take n buf; given = [] },
      record { items = p.items ++ take n buf; room = p.room - n },
    )
pipe_answer p (gets signal count) =
    let n : ℕ = min count (length p.items) in
    (
      record { reply = returned (pos n); taken = []; given = take n p.items },
      record { items = drop n p.items; room = p.room + n },
    )

-- All answers, in order.
unfoldable pub pipe_answers : Pipe → List Ask → List Answer
pipe_answers p [] = []
pipe_answers p (a ∷ asks) = let (first, next) = pipe_answer p a in first ∷ pipe_answers next asks

module _ (k : Kfifo) where
  open k use {Fifo, contents, kfifo_avail}

  -- The calls of the driver that ask so.
  unfoldable pub call_answer : State Fifo → Ask → Answer × State Fifo
  unfolding write_fifo read_fifo
  call_answer s (puts signal buf) =
      let (out, bytes, s') = write_fifo k signal buf (length buf) s in
      (record { reply = out; taken = bytes; given = [] }, s')
  call_answer s (gets signal count) =
      let (out, bytes, s') = read_fifo k signal count count s in
      (record { reply = out; taken = []; given = bytes }, s')

  pub call_answers : State Fifo → List Ask → List Answer
  unfolding call_answer
  call_answers s [] = []
  call_answers s (a ∷ asks) = let (first, next) = call_answer s a in first ∷ call_answers next asks

  -- The driver shows a pipe: no mutex is held, and its FIFO has the bytes and the room.
  pub record Shows (s : State Fifo) (p : Pipe) : Type 0 where
    pub items : contents s.myfifo ≡ p.items
    pub room : kfifo_avail s.myfifo ≡ p.room
    pub write_free : s.write_access ≡ false
    pub read_free : s.read_access ≡ false

  pub call_answer-Shows :
      (s : State Fifo) (p : Pipe) (a : Ask)
      → Shows s p
      → let (mine, s') = call_answer s a in
        let (its, p') = pipe_answer p a in (mine ≡ its) × Shows s' p'
  unfolding call_answer write_fifo read_fifo
  call_answer-Shows s p (puts signal buf) h = ground (arith, put_moves k s.myfifo buf)
  call_answer-Shows s p (gets signal count) h =
      ground (arith, get_moves k s.myfifo count, k.to_user_ok s.myfifo count count)

  -- Where the driver shows a pipe, every sequence of reads and writes with good buffers gets the replies
  -- of the pipe, takes the bytes that it takes and gives those that it gives.
  pub call_answers-pipe :
      (s : State Fifo) (p : Pipe) (asks : List Ask)
      → Shows s p
      → call_answers s asks ≡ pipe_answers p asks
  unfolding call_answers pipe_answers
  call_answers-pipe s p [] h = refl
  call_answers-pipe s p (a ∷ asks) h =
      let (same, shows) = call_answer-Shows s p a h in
      ap₂ ◌∷◌ same (call_answers-pipe (call_answer s a).1 (pipe_answer p a).1 asks shows)
