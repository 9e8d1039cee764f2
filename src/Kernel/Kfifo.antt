-- ===== src/Kernel/Kfifo.antt =====
-- linux/kfifo.h, which the drivers call and this repository does not hold: the calls as a record
-- of functions with the behaviour that the kernel documents. User memory is what the copy can
-- touch: the readable bytes at the source, the number of writable bytes at the destination.
use linux_kernel_ldd.Prelude.{
  ℕ, ◌+◌, ◌-◌, ◌≤◌, ◌≡◌, refl, List, [], ◌++◌, ℤ, pos, length, take, drop, min, leb, if◌then◌else◌,
  arith, length-append, length-take, length-drop, take-append-drop,
}
use linux_kernel_ldd.Kernel.Errno.{efault}

pub record FromUser (F : Type 0) : Type 0 where
  pub fifo : F
  pub ret : ℤ
  pub copied : ℕ

pub record ToUser (F : Type 0) : Type 0 where
  pub fifo : F
  pub ret : ℤ
  pub bytes : List ℕ

pub record Kfifo : Type 1 where
  pub Fifo : Type 0
  -- The bytes held, oldest first, and the room for bytes.
  pub contents : Fifo → List ℕ
  pub size : Fifo → ℕ
  pub kfifo_avail : Fifo → ℕ
  -- `kfifo_alloc` makes an empty FIFO of at least the size asked for (it rounds up to a power of 2).
  pub fresh : ℕ → Fifo
  pub kfifo_from_user : Fifo → List ℕ → ℕ → FromUser Fifo
  pub kfifo_to_user : Fifo → ℕ → ℕ → ToUser Fifo
  pub contents-fresh : (n : ℕ) → contents (fresh n) ≡ []
  pub size-fresh : (n : ℕ) → n ≤ size (fresh n)
  pub avail_lem : (f : Fifo) → kfifo_avail f + length (contents f) ≡ size f
  -- `kfifo_from_user` appends a prefix of the buffer, of as many bytes as it reports.
  pub from_user_contents :
      (f : Fifo) (buf : List ℕ) (count : ℕ)
      → let r = kfifo_from_user f buf count in contents r.fifo ≡ contents f ++ take r.copied buf
  pub from_user_size :
      (f : Fifo) (buf : List ℕ) (count : ℕ) → size (kfifo_from_user f buf count).fifo ≡ size f
  pub from_user_readable :
      (f : Fifo) (buf : List ℕ) (count : ℕ) → (kfifo_from_user f buf count).copied ≤ length buf
  -- Where the buffer is readable the call succeeds, and takes as many bytes as are asked and fit.
  pub from_user_ok :
      (f : Fifo) (buf : List ℕ) (count : ℕ)
      → count ≤ length buf
      → let r = kfifo_from_user f buf count in
        (r.ret ≡ pos 0) × (r.copied ≡ min count (kfifo_avail f))
  -- `kfifo_to_user` hands out the oldest bytes, and keeps the others.
  pub to_user_contents :
      (f : Fifo) (room count : ℕ)
      → let r = kfifo_to_user f room count in r.bytes ++ contents r.fifo ≡ contents f
  pub to_user_size : (f : Fifo) (room count : ℕ) → size (kfifo_to_user f room count).fifo ≡ size f
  -- Where the buffer is writable the call succeeds, with as many bytes as are asked and there are.
  pub to_user_ok :
      (f : Fifo) (room count : ℕ)
      → count ≤ room
      → let r = kfifo_to_user f room count in
        (r.ret ≡ pos 0) × (length r.bytes ≡ min count (length (contents f)))

-- A list of bytes and the room beside it shows that the behaviour can be had.
pub record Store : Type 0 where
  pub bytes : List ℕ
  pub room : ℕ

abbrev pub store_from_user : Store → List ℕ → ℕ → FromUser Store
store_from_user s buf count =
    let n = min (min count s.room) (length buf) in
    record {
      fifo = record { bytes = s.bytes ++ take n buf; room = s.room - n };
      ret = if leb (min count s.room) (length buf) then pos 0 else efault;
      copied = n;
    }

abbrev pub store_to_user : Store → ℕ → ℕ → ToUser Store
store_to_user s room count =
    let n = min (min count (length s.bytes)) room in
    record {
      fifo = record { bytes = drop n s.bytes; room = s.room + n };
      ret = if leb (min count (length s.bytes)) room then pos 0 else efault;
      bytes = take n s.bytes;
    }

abbrev pub store_size : Store → ℕ
store_size s = s.room + length s.bytes

pub store_fresh_size : (n : ℕ) → n ≤ n + length {A = ℕ} []
store_fresh_size n = omega arith

pub store_from_user_readable :
    (s : Store) (buf : List ℕ) (count : ℕ) → (store_from_user s buf count).copied ≤ length buf
store_from_user_readable s buf count = omega arith

pub store_from_user_size :
    (s : Store) (buf : List ℕ) (count : ℕ)
    → store_size (store_from_user s buf count).fifo ≡ store_size s
store_from_user_size s buf count =
    let n : ℕ = min (min count s.room) (length buf) in
    omega (arith, length-append s.bytes (take n buf), length-take n buf)

pub store_from_user_ok :
    (s : Store) (buf : List ℕ) (count : ℕ)
    → count ≤ length buf
    → let r = store_from_user s buf count in (r.ret ≡ pos 0) × (r.copied ≡ min count s.room)
store_from_user_ok s buf count h = ground arith

pub store_to_user_size :
    (s : Store) (room count : ℕ) → store_size (store_to_user s room count).fifo ≡ store_size s
store_to_user_size s room count =
    let n : ℕ = min (min count (length s.bytes)) room in omega (arith, length-drop n s.bytes)

pub store_to_user_ok :
    (s : Store) (room count : ℕ)
    → count ≤ room
    → let r = store_to_user s room count in
      (r.ret ≡ pos 0) × (length r.bytes ≡ min count (length s.bytes))
store_to_user_ok s room count h =
    let n : ℕ = min (min count (length s.bytes)) room in ground (arith, length-take n s.bytes)

abbrev pub store_kfifo : Kfifo
store_kfifo = record {
  Fifo = Store;
  contents = λ s. s.bytes;
  size = store_size;
  kfifo_avail = λ s. s.room;
  fresh = λ n. record { bytes = []; room = n };
  kfifo_from_user = store_from_user;
  kfifo_to_user = store_to_user;
  contents-fresh = λ n. refl;
  size-fresh = store_fresh_size;
  avail_lem = λ f. refl;
  from_user_contents = λ f buf count. refl;
  from_user_size = store_from_user_size;
  from_user_readable = store_from_user_readable;
  from_user_ok = store_from_user_ok;
  to_user_contents = λ f room count. take-append-drop _ f.bytes;
  to_user_size = store_to_user_size;
  to_user_ok = store_to_user_ok;
}
