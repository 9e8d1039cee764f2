-- ===== src/Kernelnewbies/Echo.antt =====
-- A first message through an empty FIFO of kernelnewbies.c.
use linux_kernel_ldd.Prelude.{
  ℕ, ◌≤◌, min, ◌≡◌, refl, ◌∙◌, false, List, [], arith, length, take, append-whole, take-length, pos,
}
use linux_kernel_ldd.Kernel.Kfifo.{Kfifo}
use linux_kernel_ldd.Kernelnewbies.{State, returned, write_fifo, read_fifo}
use linux_kernel_ldd.Kernelnewbies.Bytes.{write_fifo_lem, read_fifo_lem, read_access-write_fifo}

module _ (k : Kfifo) where
  open k use {Fifo, contents, kfifo_avail}

  fresh_holds : (n : ℕ) → n ≤ kfifo_avail (k.fresh n)
  fresh_holds n = ground (arith, k.size-fresh n, k.avail_lem (k.fresh n), k.contents-fresh n)

  abbrev pub fresh_state : ℕ → State Fifo
  fresh_state size = record { myfifo = k.fresh size; read_access = false; write_access = false }

  -- What a new FIFO takes as a whole, a read of as many bytes gives back.
  pub read-write_fresh :
      (size : ℕ) (buf : List ℕ)
      → length buf ≤ size
      → let (wrote, taken, s1) = write_fifo k false buf (length buf) (fresh_state size) in
        let (got, given, s2) = read_fifo k false (length buf) (length buf) s1 in
        (wrote ≡ returned (pos (length buf)))
        × (got ≡ returned (pos (length buf)))
        × (given ≡ buf)
        × (contents s2.myfifo ≡ [])
  read-write_fresh size buf fits =
      let n : ℕ = length buf in
      let s0 = fresh_state size in
      let s1 = (write_fifo k false buf n s0).2 in
      let w = write_fifo_lem k false buf n s0 refl (omega arith) in
      let free = read_access-write_fifo k false buf n s0 in
      let r = read_fifo_lem k false n n s1 free (omega arith) in
      let all : take (min n (kfifo_avail (k.fresh size))) buf ≡ buf =
        take-length _ buf (omega (arith, fresh_holds size)) in
      let stored : contents s1.myfifo ≡ buf = ground (arith, k.contents-fresh size) in
      let (got, given, s2) = read_fifo k false n n s1 in
      let all_out : length given ≡ length (contents s1.myfifo) = ground arith in
      let whole = append-whole given (contents s2.myfifo) (contents s1.myfifo) r.1 all_out in
      (ground arith, ground arith, whole.0 ∙ stored, whole.1)
