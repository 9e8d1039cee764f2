-- ===== src/Ramdisk/Requests.antt =====
-- request_handle: reads and writes over the segments of a request.
use linux_kernel_ldd.Prelude.{
  ℕ, ◌+◌, ◌^◌, ◌≤◌, ◌<◌, ◌≡◌, refl, sym, ap, ◌∙◌, Option, none, some, List, [], ◌∷◌, append-nil,
  arith, length, take, drop, length-append, length-take, length-drop, take-length, drop-length,
}
use mathlib.Core.Path.{subst}
use linux_kernel_ldd.Ramdisk.{dev_size, clipped, copy_in, handle_write, handle_read, copy_out}
use linux_kernel_ldd.Ramdisk.Segments.{
  joined, patched, length-patched, patched-patched, patched-nil, lens, slices, slices-patched, sum,
  length-joined,
}

-- The copy was made, and the memory has its size.
abbrev pub IsSized : Option (List ℕ) → Type 0
IsSized none = ⊥
IsSized (some memory) = length memory ≡ dev_size

pub clipped_inside :
    (off b_len : ℕ)
    → off ≤ dev_size
    → (off + clipped off b_len ≤ dev_size) × (clipped off b_len ≤ b_len)
clipped_inside off b_len h = ground arith

copy_in_lem :
    (off b_len : ℕ) (b_buf memory : List ℕ)
    → off + b_len ≤ length memory
    → b_len ≤ length b_buf
    → copy_in off b_len b_buf memory ≡ some (patched off (take b_len b_buf) memory)
unfolding copy_in patched
copy_in_lem off b_len b_buf memory h fits = ground (arith, length-take b_len b_buf)

pub handle_write_step :
    (off : ℕ) (b : List ℕ) (bs : List (List ℕ)) (memory : List ℕ)
    → length memory ≡ dev_size
    → off ≤ dev_size
    → let n = clipped off (length b) in
      handle_write off (b ∷ bs) memory ≡ handle_write (off + n) bs (patched off (take n b) memory)
unfolding handle_write
handle_write_step off b bs memory size inside =
    let n : ℕ = clipped off (length b) in
    let fits = clipped_inside off (length b) inside in
    ground (arith, copy_in_lem off n b memory (omega arith) fits.1)

-- On a memory of the device's size, a write request that starts in the device never leaves it,
-- however long its segments are: all its copies stay in the memory, which keeps its size.
pub handle_write_bounds :
    (off : ℕ) (segs : List (List ℕ)) (memory : List ℕ)
    → length memory ≡ dev_size
    → off ≤ dev_size
    → IsSized (handle_write off segs memory)
unfolding handle_write
handle_write_bounds off [] memory size inside = size
handle_write_bounds off (b ∷ bs) memory size inside =
    let n : ℕ = clipped off (length b) in
    let fits = clipped_inside off (length b) inside in
    subst IsSized (sym (handle_write_step off b bs memory size inside)) (
      handle_write_bounds (off + n) bs (patched off (take n b) memory)
        (length-patched off (take n b) memory (omega (arith, length-take n b)) ∙ size) fits.0)

handle_write_whole :
    (off : ℕ) (b : List ℕ) (bs : List (List ℕ)) (memory : List ℕ)
    → length memory ≡ dev_size
    → off + length b ≤ dev_size
    → handle_write off (b ∷ bs) memory ≡ handle_write (off + length b) bs (patched off b memory)
handle_write_whole off b bs memory size inside = ground (
  arith,
  handle_write_step off b bs memory size (omega arith),
  take-length (length b) b (omega arith),
)

-- On a memory of the device's size, a write request that lies in the device puts the bytes of its
-- segments, one behind the other, at its place, and leaves all other bytes alone.
pub handle_write_lem :
    (off : ℕ) (segs : List (List ℕ)) (memory : List ℕ)
    → length memory ≡ dev_size
    → off + length (joined segs) ≤ dev_size
    → handle_write off segs memory ≡ some (patched off (joined segs) memory)
unfolding handle_write joined
handle_write_lem off [] memory size inside = ap some (sym (patched-nil off memory))
handle_write_lem off (b ∷ bs) memory size inside =
    let split = length-append b (joined bs) in
    let memory' = patched off b memory in
    handle_write_whole off b bs memory size (omega (arith, split))
    ∙ handle_write_lem (off + length b) bs memory'
        (length-patched off b memory (omega (arith, split)) ∙ size) (omega (arith, split))
    ∙ ap some (patched-patched off b (joined bs) memory (omega (arith, split)))

-- A request that starts behind the end of the device copies outside its memory.
pub handle_write_outside :
    (off : ℕ) (b : List ℕ) (bs : List (List ℕ)) (memory : List ℕ)
    → length memory ≡ dev_size
    → dev_size < off
    → off + length b < 2 ^ 63
    → handle_write off (b ∷ bs) memory ≡ none
unfolding handle_write copy_in
handle_write_outside off b bs memory size outside small = ground arith

handle_read_step :
    (off : ℕ) (b : List ℕ) (bs : List (List ℕ)) (memory : List ℕ) {rest : List (List ℕ)}
    → length memory ≡ dev_size
    → off + length b ≤ dev_size
    → handle_read (off + length b) bs memory ≡ some rest
    → handle_read off (b ∷ bs) memory ≡ some (take (length b) (drop off memory) ∷ rest)
unfolding handle_read copy_out
handle_read_step off b bs memory size inside h = ground (
  arith,
  take-length (length b) b (omega arith),
  length-drop (length b) b,
  append-nil (take (length b) (drop off memory)),
  drop-length (length b) b,
)

-- A read request that lies in the device fills each segment with the bytes of its place.
pub handle_read_lem :
    (off : ℕ) (segs : List (List ℕ)) (memory : List ℕ)
    → length memory ≡ dev_size
    → off + length (joined segs) ≤ dev_size
    → handle_read off segs memory ≡ some (slices off (lens segs) memory)
unfolding joined lens slices handle_read
handle_read_lem off [] memory size inside = refl
handle_read_lem off (b ∷ bs) memory size inside =
    let split = length-append b (joined bs) in
    handle_read_step off b bs memory size (omega (arith, split))
      (handle_read_lem (off + length b) bs memory size (omega (arith, split)))

-- On a memory of the device's size, where a write request that lies in the device has put its
-- segments, a read request with segments of the same lengths gets them back.
pub read-write :
    (off : ℕ) (segs blank : List (List ℕ)) (memory : List ℕ) {memory' : List ℕ}
    → length memory ≡ dev_size
    → off + length (joined segs) ≤ dev_size
    → lens blank ≡ lens segs
    → handle_write off segs memory ≡ some memory'
    → handle_read off blank memory' ≡ some segs
read-write off segs blank memory {memory'} size inside same written =
    let fits = subst (λ m. off + m ≤ dev_size) (length-joined segs) inside in
    let there =
      subst (λ m. off + m ≤ dev_size) (ap sum (sym same) ∙ sym (length-joined blank)) fits in
    let memory_eq : patched off (joined segs) memory ≡ memory' =
      cc (handle_write_lem off segs memory size inside) in
    let size' = length-patched off (joined segs) memory (omega arith) ∙ size in
    subst (λ m. handle_read off blank m ≡ some segs) memory_eq
      (handle_read_lem off blank _ size' there
        ∙ ap some (
            ap (λ ns. slices off ns (patched off (joined segs) memory)) same
            ∙ slices-patched off segs memory (omega arith)))
