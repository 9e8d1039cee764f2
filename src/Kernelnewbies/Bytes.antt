-- ===== src/Kernelnewbies/Bytes.antt =====
-- driver_write_fifo and driver_read_fifo of kernelnewbies.c, one call and many.
use linux_kernel_ldd.Prelude.{
  ℕ, ◌≡◌, ◌≤◌, Bool, false, List, [], ◌∷◌, ◌++◌, pos, take, length, min, arith, append-nil,
  append_splice,
}
use linux_kernel_ldd.Kernel.Kfifo.{Kfifo}
use linux_kernel_ldd.Kernelnewbies.{State, returned, write_fifo, read_fifo}

pub data Call : Type 0 where
  writes : Bool → List ℕ → ℕ → Call
  reads : Bool → ℕ → ℕ → Call

module _ (k : Kfifo) where
  open k use {Fifo, contents, kfifo_avail}

  -- A write of a readable buffer that finds its mutex free stores what fits, and reports all of it as
  -- written.
  pub write_fifo_lem :
      (signal : Bool) (buf : List ℕ) (count : ℕ) (s : State Fifo)
      → s.write_access ≡ false
      → count ≤ length buf
      → let (out, taken, s') = write_fifo k signal buf count s in
        (out ≡ returned (pos count))
        × (taken ≡ take (min count (kfifo_avail s.myfifo)) buf)
        × (contents s'.myfifo ≡ contents s.myfifo ++ taken)
        × (s'.write_access ≡ false)
  unfolding write_fifo
  write_fifo_lem signal buf count s free readable =
      ground (arith, k.from_user_ok s.myfifo buf count, k.from_user_contents s.myfifo buf count)

  -- A write leaves the other mutex alone.
  pub read_access-write_fifo :
      (signal : Bool) (buf : List ℕ) (count : ℕ) (s : State Fifo)
      → (write_fifo k signal buf count s).2.read_access ≡ s.read_access
  unfolding write_fifo
  read_access-write_fifo signal buf count s = ground arith

  -- A read into a writable buffer that finds its mutex free hands out the oldest bytes, as many as are asked and there are, and
  -- reports their number; no bytes give 0 and not a wait.
  pub read_fifo_lem :
      (signal : Bool) (room count : ℕ) (s : State Fifo)
      → s.read_access ≡ false
      → count ≤ room
      → let (out, given, s') = read_fifo k signal room count s in
        (out ≡ returned (pos (min count (length (contents s.myfifo)))))
        × (given ++ contents s'.myfifo ≡ contents s.myfifo)
        × (length given ≡ min count (length (contents s.myfifo)))
        × (s'.read_access ≡ false)
  unfolding read_fifo
  read_fifo_lem signal room count s free writable =
      ground (arith, k.to_user_ok s.myfifo room count, k.to_user_contents s.myfifo room count)

  -- What a history of calls moves, and the state after it.
  pub record Moved : Type 0 where
    pub next : State Fifo
    pub taken : List ℕ
    pub given : List ℕ

  unfoldable pub step : State Fifo → Call → Moved
  step s (writes signal buf count) =
      let (out, bytes, s') = write_fifo k signal buf count s in
      record { next = s'; taken = bytes; given = [] }
  step s (reads signal room count) =
      let (out, bytes, s') = read_fifo k signal room count s in
      record { next = s'; taken = []; given = bytes }

  pub run : State Fifo → List Call → Moved
  run s [] = record { next = s; taken = []; given = [] }
  run s (c ∷ cs) =
      let m = step s c in
      let rest = run m.next cs in
      record { next = rest.next; taken = m.taken ++ rest.taken; given = m.given ++ rest.given }

  pub step_conserves :
      (s : State Fifo) (c : Call)
      → let m = step s c in contents s.myfifo ++ m.taken ≡ m.given ++ contents m.next.myfifo
  unfolding step write_fifo read_fifo
  step_conserves s (writes signal buf count) =
      ground (arith, k.from_user_contents s.myfifo buf count, append-nil (contents s.myfifo))
  step_conserves s (reads signal room count) =
      ground (arith, k.to_user_contents s.myfifo room count, append-nil (contents s.myfifo))

  -- Over every history of reads and writes the bytes come out in the order in which they went in,
  -- none lost once taken and none made up.
  pub calls_conserve :
      (s : State Fifo) (cs : List Call)
      → let m = run s cs in contents s.myfifo ++ m.taken ≡ m.given ++ contents m.next.myfifo
  unfolding run
  calls_conserve s [] = append-nil (contents s.myfifo)
  calls_conserve s (c ∷ cs) =
      let m = step s c in
      let rest = run m.next cs in
      append_splice (contents s.myfifo) m.taken m.given (contents m.next.myfifo) rest.taken
        rest.given (contents rest.next.myfifo) (step_conserves s c) (calls_conserve m.next cs)
