-- ===== src/Mcdevdrvs/Minors.antt =====
-- The two devices of mcdevdrvs.c, over histories of calls on both.
use linux_kernel_ldd.Prelude.{
  ℕ, ◌≡◌, List, [], ◌∷◌, ◌++◌, ◌==◌, if◌then◌else◌, arith, append-nil, append_splice,
}
use linux_kernel_ldd.Kernel.Kfifo.{Kfifo}
use linux_kernel_ldd.Kernelnewbies.Bytes.{Call, writes, reads, step, step_conserves}
use linux_kernel_ldd.Mcdevdrvs.{Devcs, open_fifo, write_minor, read_minor}

-- A call on a file of a minor number.
abbrev pub MinorCall : Type 0
MinorCall = ℕ × Call

module _ (k : Kfifo) where
  open k use {Fifo, contents}

  -- The devices after a call, and the bytes that it moves into and out of the FIFO of its minor.
  pub record Effect : Type 0 where
    pub devcs : Devcs Fifo
    pub taken : List ℕ
    pub given : List ℕ

  pub step_minor : Devcs Fifo → MinorCall → Effect
  step_minor devcs (minor, writes signal buf count) =
      let (out, bytes, devcs') = write_minor k minor signal buf count devcs in
      record { devcs = devcs'; taken = bytes; given = [] }
  step_minor devcs (minor, reads signal room count) =
      let (out, bytes, devcs') = read_minor k minor signal room count devcs in
      record { devcs = devcs'; taken = []; given = bytes }

  -- The bytes of a call that count for minor `m`.
  abbrev pub of_minor : ℕ → MinorCall → List ℕ → List ℕ
  of_minor m c bytes = if m == c.0 then bytes else []

  -- The bytes that a history moves into and out of the FIFO of minor `m`.
  pub record History : Type 0 where
    pub last : Devcs Fifo
    pub taken : List ℕ
    pub given : List ℕ

  pub run_minors : ℕ → Devcs Fifo → List MinorCall → History
  run_minors m devcs [] = record { last = devcs; taken = []; given = [] }
  run_minors m devcs (c ∷ cs) =
      let e = step_minor devcs c in
      let rest = run_minors m e.devcs cs in
      record {
        last = rest.last;
        taken = of_minor m c e.taken ++ rest.taken;
        given = of_minor m c e.given ++ rest.given;
      }

  step_minor_conserves :
      (m : ℕ) (devcs : Devcs Fifo) (c : MinorCall)
      → let e = step_minor devcs c in
        contents (devcs m).myfifo ++ of_minor m c e.taken
        ≡ of_minor m c e.given ++ contents (e.devcs m).myfifo
  unfolding step_minor write_minor read_minor open_fifo step
  step_minor_conserves m devcs (minor, writes signal buf count) = ground (
    arith,
    step_conserves k (devcs minor) (writes signal buf count),
    append-nil (contents (devcs m).myfifo),
  )
  step_minor_conserves m devcs (minor, reads signal room count) = ground (
    arith,
    step_conserves k (devcs minor) (reads signal room count),
    append-nil (contents (devcs m).myfifo),
  )

  -- Over every history of reads and writes on both devices, the bytes of one minor number go in and
  -- come out in order, whatever is done on the other: none cross over, none are lost once taken.
  pub minors_conserve :
      (m : ℕ) (devcs : Devcs Fifo) (cs : List MinorCall)
      → let h = run_minors m devcs cs in
        contents (devcs m).myfifo ++ h.taken ≡ h.given ++ contents (h.last m).myfifo
  unfolding run_minors
  minors_conserve m devcs [] = append-nil (contents (devcs m).myfifo)
  minors_conserve m devcs (c ∷ cs) =
      let e = step_minor devcs c in
      let rest = run_minors m e.devcs cs in
      append_splice (contents (devcs m).myfifo) (of_minor m c e.taken) (of_minor m c e.given)
        (contents (e.devcs m).myfifo) rest.taken rest.given (contents (rest.last m).myfifo)
        (step_minor_conserves m devcs c) (minors_conserve m e.devcs cs)
