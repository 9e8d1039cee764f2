-- ===== src/Chardrvs/Threads/Conserve.antt =====
-- The bytes of chardrvs.c's FIFO and the room that `avail` promises, while threads run its handlers in any order.
use linux_kernel_ldd.Prelude.{
  ℕ, ◌≡◌, sym, ap, ◌∙◌, List, [], ◌++◌, append-nil, append_splice, arith,
}
use linux_kernel_ldd.Kernel.Kfifo.{Kfifo}
use linux_kernel_ldd.Chardrvs.{Dev}
use linux_kernel_ldd.Chardrvs.Threads.{
  Pc, Mem, Move, State, Step, moves, wake_up, Reach, here, next, at_rest, copied_in, copied_out,
  copy_in, copy_out, tears,
}
use linux_kernel_ldd.Chardrvs.Threads.Exclusion.{Reach-Locks, never_clash}

module _ (k : Kfifo) where
  open k use {Fifo, contents}

  -- What was in the FIFO and what went in is what came out and what is in it.
  Kept : Dev Fifo → Mem k → Type 0
  Kept d m = contents d.myfifo ++ m.taken ≡ m.given ++ contents m.dev.myfifo

  copied_in-Kept :
      (d : Dev Fifo) (m : Mem k) (buf : List ℕ) (count : ℕ)
      → Kept d m
      → Kept d (copied_in k m buf count)
  unfolding Kept
  copied_in-Kept d m buf count h =
      let r = k.kfifo_from_user m.dev.myfifo buf count in
      append_splice _ m.taken m.given _ _ [] _ h (sym (k.from_user_contents m.dev.myfifo buf count))
      ∙ ap (λ g. g ++ contents r.fifo) (append-nil m.given)

  copied_out-Kept :
      (d : Dev Fifo) (m : Mem k) (room count : ℕ) → Kept d m → Kept d (copied_out k m room count)
  unfolding Kept
  copied_out-Kept d m room count h =
      ap (λ t. contents d.myfifo ++ t) (sym (append-nil m.taken))
      ∙ append_splice _ m.taken m.given _ [] _ _ h
          (append-nil (contents m.dev.myfifo) ∙ sym (k.to_user_contents m.dev.myfifo room count))

  Move-Kept : (d : Dev Fifo) {m m' : Mem k} {p p' : Pc} → Move k m p m' p' → Kept d m → Kept d m'
  unfolding Kept
  Move-Kept d {m} (copy_in {buf} {count}) h = copied_in-Kept d m buf count h
  Move-Kept d {m} (copy_out {room} {count}) h = copied_out-Kept d m room count h
  Move-Kept d _ h = h

  Step-Kept :
      (d : Dev Fifo) {s t : State k}
      → Reach k (at_rest k d) s
      → Step k s t
      → Kept d s.mem
      → Kept d t.mem
  Step-Kept d r (moves i at mv) h = Move-Kept d mv h
  Step-Kept d r (wake_up i at) h = h
  Step-Kept d {s} r (tears i j other both f) h =
      absurd (ground (arith, never_clash k s i j (Reach-Locks k d r) other, both))

  -- Whatever threads do from a device at rest, in any order, and although two copies at once, both in or both
  -- out, could leave anything in the FIFO: the bytes that were in the FIFO and then those that writers put
  -- in, in this order, are those that readers got and then those still in it.
  pub threads_conserve :
      (d : Dev Fifo) {s : State k}
      → Reach k (at_rest k d) s
      → contents d.myfifo ++ s.mem.taken ≡ s.mem.given ++ contents s.mem.dev.myfifo
  unfolding Kept
  threads_conserve d here = append-nil (contents d.myfifo)
  threads_conserve d (next {t} r st) = Step-Kept d r st (threads_conserve d r)
