-- ===== src/Mcdevdrvs/Pipes.antt =====
-- The two devices of mcdevdrvs.c as two pipes that know nothing of each other.
use linux_kernel_ldd.Prelude.{
  ℕ, ◌≡◌, refl, false, List, [], ◌∷◌, ◌==◌, if◌then◌else◌, length, inl, inr, Bool-cases, sym,
  ==_iff,
}
use mathlib.Core.Path.{subst, ap₂}
use linux_kernel_ldd.Kernel.Kfifo.{Kfifo}
use linux_kernel_ldd.Kernelnewbies.Pipe.{
  Pipe, Ask, puts, gets, Answer, pipe_answer, pipe_answers, call_answer, Shows, call_answer-Shows,
}
use linux_kernel_ldd.Mcdevdrvs.{Devcs, update, open_fifo, write_minor, read_minor}

-- An ask on a file of a minor number.
abbrev pub MinorAsk : Type 0
MinorAsk = ℕ × Ask

-- The asks on minor `m`.
pub asks_of : ℕ → List MinorAsk → List Ask
asks_of m [] = []
asks_of m ((minor, a) ∷ asks) = let rest = asks_of m asks in if m == minor then a ∷ rest else rest

module _ (k : Kfifo) where
  open k use {Fifo}

  pub minor_answer : ℕ → Ask → Devcs Fifo → Answer × Devcs Fifo
  unfolding write_minor read_minor
  minor_answer minor (puts signal buf) devcs =
      let (out, bytes, devcs') = write_minor k minor signal buf (length buf) devcs in
      (record { reply = out; taken = bytes; given = [] }, devcs')
  minor_answer minor (gets signal count) devcs =
      let (out, bytes, devcs') = read_minor k minor signal count count devcs in
      (record { reply = out; taken = []; given = bytes }, devcs')

  -- What the callers on minor `m` get in a history of calls on all minors.
  pub answers_of : ℕ → Devcs Fifo → List MinorAsk → List Answer
  unfolding minor_answer
  answers_of m devcs [] = []
  answers_of m devcs ((minor, a) ∷ asks) =
      let (first, next) = minor_answer minor a devcs in
      let rest = answers_of m next asks in if m == minor then first ∷ rest else rest

  -- A call on a minor number is a call on its device, and leaves the others alone.
  minor_answer_lem :
      (minor : ℕ) (a : Ask) (devcs : Devcs Fifo)
      → minor_answer minor a devcs
        ≡ ((call_answer k (devcs minor) a).0, update devcs minor (call_answer k (devcs minor) a).1)
  unfolding minor_answer write_minor read_minor open_fifo call_answer
  minor_answer_lem minor (puts signal buf) devcs = refl
  minor_answer_lem minor (gets signal count) devcs = refl

  step_own :
      (m : ℕ) (a : Ask) (devcs : Devcs Fifo) (p : Pipe)
      → Shows k (devcs m) p
      → let (first, next) = minor_answer m a devcs in
        (first ≡ (pipe_answer p a).0) × Shows k (next m) (pipe_answer p a).1
  step_own m a devcs p h =
      let (same, shows) = call_answer-Shows k (devcs m) p a h in
      let own = (==_iff m m).1 refl in rw (minor_answer_lem m a devcs, own) (same, shows)

  step_other :
      (m minor : ℕ) (a : Ask) (devcs : Devcs Fifo)
      → (m == minor) ≡ false
      → (minor_answer minor a devcs).1 m ≡ devcs m
  step_other m minor a devcs other = rw (minor_answer_lem minor a devcs, other) refl

  -- Where the device of minor `m` shows a pipe, the callers on `m` get what that pipe answers to their
  -- own asks alone, whatever is asked of the other minor numbers, and in whichever order the calls come.
  pub answers_of-pipe :
      (m : ℕ) (devcs : Devcs Fifo) (p : Pipe) (asks : List MinorAsk)
      → Shows k (devcs m) p
      → answers_of m devcs asks ≡ pipe_answers p (asks_of m asks)
  unfolding answers_of asks_of pipe_answers
  answers_of-pipe m devcs p [] h = refl
  answers_of-pipe m devcs p ((minor, a) ∷ asks) h = elim (Bool-cases (m == minor)) [
    | inl own ↦
        let (same, shows) =
          subst
            (λ n.
              ((minor_answer n a devcs).0 ≡ (pipe_answer p a).0)
              × Shows k ((minor_answer n a devcs).1 m) (pipe_answer p a).1)
            ((==_iff m minor).0 own) (step_own m a devcs p h) in
        rw own (
          ap₂ ◌∷◌ same
            (answers_of-pipe m (minor_answer minor a devcs).1 (pipe_answer p a).1 asks shows))
    | inr other ↦ rw other (
        answers_of-pipe m (minor_answer minor a devcs).1 p asks
          (subst (λ s. Shows k s p) (sym (step_other m minor a devcs other)) h))
  ]
