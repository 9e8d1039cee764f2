-- ===== src/Kernel/Moves.antt =====
-- What the calls of linux/kfifo.h do where the caller's buffers are good.
use linux_kernel_ldd.Prelude.{
  ℕ, ◌+◌, ◌-◌, ◌≤◌, min, ◌≡◌, ap, ◌∙◌, List, ◌++◌, arith, length, take, drop, length-append,
  length-take, append-split, length-drop, take-length, pos,
}
use linux_kernel_ldd.Kernel.Kfifo.{Kfifo}

module _ (k : Kfifo) where
  open k use {Fifo, contents, kfifo_avail}

  -- As many bytes as there is room for go in behind the others.
  pub put_moves :
      (f : Fifo) (buf : List ℕ)
      → let n : ℕ = min (length buf) (kfifo_avail f) in
        let r = k.kfifo_from_user f buf (length buf) in
        (r.ret ≡ pos 0)
        × (take r.copied buf ≡ take n buf)
        × (contents r.fifo ≡ contents f ++ take n buf)
        × (kfifo_avail r.fifo ≡ kfifo_avail f - n)
  put_moves f buf =
      let n : ℕ = min (length buf) (kfifo_avail f) in
      let r = k.kfifo_from_user f buf (length buf) in
      let good = k.from_user_ok f buf (length buf) (omega arith) in
      let copied = ap (λ m. take m buf) good.1 in
      let stored = k.from_user_contents f buf (length buf) ∙ ap (λ b. contents f ++ b) copied in
      (
        good.0,
        copied,
        stored,
        omega (
          arith,
          k.avail_lem f,
          k.avail_lem r.fifo,
          k.from_user_size f buf (length buf),
          ap length stored,
          length-append (contents f) (take n buf),
          length-take n buf,
        ),
      )

  -- A buffer for which there is room goes in as a whole.
  pub join_moves :
      (f : Fifo) (buf : List ℕ)
      → length buf ≤ kfifo_avail f
      → let r = k.kfifo_from_user f buf (length buf) in
        (contents r.fifo ≡ contents f ++ buf)
        × (kfifo_avail r.fifo ≡ kfifo_avail f - length buf)
        × (take r.copied buf ≡ buf)
  join_moves f buf fits =
      let n : ℕ = length buf in
      let r = k.kfifo_from_user f buf n in
      let copied : r.copied ≡ n = omega (arith, (k.from_user_ok f buf n (omega arith)).1) in
      let whole = take-length r.copied buf (omega arith) in
      let stored = k.from_user_contents f buf n ∙ ap (λ b. contents f ++ b) whole in
      (
        stored,
        omega (
          arith,
          k.avail_lem f,
          k.avail_lem r.fifo,
          k.from_user_size f buf n,
          ap length stored,
          length-append (contents f) buf,
        ),
        whole,
      )

  -- The oldest bytes come out, as many as are asked for and there are.
  pub get_moves :
      (f : Fifo) (count : ℕ)
      → let n : ℕ = min count (length (contents f)) in
        let r = k.kfifo_to_user f count count in
        (r.bytes ≡ take n (contents f))
        × (contents r.fifo ≡ drop n (contents f))
        × (kfifo_avail r.fifo ≡ kfifo_avail f + n)
  get_moves f count =
      let n : ℕ = min count (length (contents f)) in
      let r = k.kfifo_to_user f count count in
      let bytes = (k.to_user_ok f count count (omega arith)).1 in
      let (taken, left) =
        append-split n r.bytes (contents r.fifo) (contents f) (k.to_user_contents f count count)
          bytes in
      (
        taken,
        left,
        omega (
          arith,
          k.avail_lem f,
          k.avail_lem r.fifo,
          k.to_user_size f count count,
          ap length left,
          length-drop n (contents f),
        ),
      )
