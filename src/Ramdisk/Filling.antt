-- ===== src/Ramdisk/Filling.antt =====
-- request_handle for a read that may reach over the end of the device.
use linux_kernel_ldd.Prelude.{
  ℕ, ◌+◌, ◌-◌, ◌≤◌, ◌≡◌, refl, sym, ap, ◌∙◌, Option, some, List, [], ◌∷◌, ◌++◌, arith, length, take,
  drop, ◌⊎◌, inl, inr, length-drop, take-length, drop-length, take_add, drop-append, min,
  append_assoc, append-nil, length-append, drop-drop,
}
use mathlib.Core.Option
use mathlib.Core.Path.{subst}
use linux_kernel_ldd.Ramdisk.{dev_size, clipped, handle_read, copy_out}
use linux_kernel_ldd.Ramdisk.Segments.{joined}
use linux_kernel_ldd.Ramdisk.Requests.{clipped_inside}

compared : (m n : ℕ) → (m ≤ n) ⊎ (n ≤ m)
compared m n = ground arith

-- What a read gives for the bytes `there` of the device from its start on: they fill the buffers as far
-- as they reach, and behind them the buffers keep what was in them.
abbrev pub filled : List ℕ → List ℕ → List ℕ
filled buf there = take (length buf) there ++ drop (length there) buf

filled-append :
    (b more there : List ℕ)
    → let n = min (length b) (length there) in
      (take n there ++ drop n b) ++ filled more (drop n there) ≡ filled (b ++ more) there
filled-append b more there =
    let n : ℕ = length b in
    elim (compared (length b) (length there)) [
      | inl fits ↦ ground (
        arith,
        drop-length n b,
        append-nil (take n there),
        length-append b more,
        take_add n (length more) there,
        drop-append (length there) b more,
        drop-length (length there) b,
        length-drop n there,
        append_assoc (take n there) (take (length more) (drop n there))
            (drop (length there - n) more),
      )
      | inr over ↦ ground (
        arith,
        take-length (length there) there,
        take-length (length b + length more) there,
        drop-length (length there) there,
        length-append b more,
        take-length {A = ℕ} (length more) [],
        append_assoc there (drop (length there) b) more,
        append-nil there,
        drop-append (length there) b more,
      )
    ]

clipped-min : (off b_len : ℕ) → off ≤ dev_size → clipped off b_len ≡ min b_len (dev_size - off)
clipped-min off b_len inside = ground arith

copy_out_lem :
    (off b_len : ℕ) (b memory : List ℕ)
    → off + b_len ≤ length memory
    → b_len ≤ length b
    → copy_out off b_len b memory ≡ some (take b_len (drop off memory) ++ drop b_len b)
unfolding copy_out
copy_out_lem off b_len b memory h fits = ground arith

-- The buffers of a read as one.
abbrev pub buffers : Option (List (List ℕ)) → Option (List ℕ)
buffers segs = Option.map joined segs

buffers-cons :
    (b : List ℕ) (rest : Option (List (List ℕ))) (bytes : List ℕ)
    → buffers rest ≡ some bytes
    → buffers (Option.map (λ bufs. b ∷ bufs) rest) ≡ some (b ++ bytes)
unfolding joined
buffers-cons b Option.none bytes h = ground arith
buffers-cons b (some segs) bytes h = ground arith

handle_read_step :
    (off : ℕ) (b : List ℕ) (bs : List (List ℕ)) (memory : List ℕ)
    → length memory ≡ dev_size
    → off ≤ dev_size
    → let n = clipped off (length b) in
      handle_read off (b ∷ bs) memory
      ≡ Option.map
          (λ bufs. (take n (drop off memory) ++ drop n b) ∷ bufs)
          (handle_read (off + n) bs memory)
unfolding handle_read
handle_read_step off b bs memory size inside =
    let n : ℕ = clipped off (length b) in
    let fits = clipped_inside off (length b) inside in
    rw (handle_read, copy_out_lem off n b memory (omega arith) fits.1) refl

-- On a memory of the device's size, a read request that starts in the device fills the bytes of its
-- buffers, one behind the other, with those of the device from its place on, up to the end of the
-- device; the bytes of the buffers for which there are none left stay as they were.
pub handle_read_clips :
    (off : ℕ) (segs : List (List ℕ)) (memory : List ℕ)
    → length memory ≡ dev_size
    → off ≤ dev_size
    → buffers (handle_read off segs memory) ≡ some (filled (joined segs) (drop off memory))
unfolding handle_read joined
handle_read_clips off [] memory size inside =
    ap some (sym (drop-length (length (drop off memory)) [] (omega arith)))
handle_read_clips off (b ∷ bs) memory size inside =
    let n : ℕ = clipped off (length b) in
    let fits = clipped_inside off (length b) inside in
    let there = drop off memory in
    let part : n ≡ min (length b) (length there) =
      omega (arith, clipped-min off (length b) inside, length-drop off memory) in
    ap buffers (handle_read_step off b bs memory size inside)
    ∙ buffers-cons (take n there ++ drop n b) (handle_read (off + n) bs memory) _
        (handle_read_clips (off + n) bs memory size fits.0)
    ∙ ap some (
        ap (λ d. (take n there ++ drop n b) ++ filled (joined bs) d) (sym (drop-drop n off memory))
        ∙ subst
            (λ k.
              (take k there ++ drop k b) ++ filled (joined bs) (drop k there)
              ≡ filled (b ++ joined bs) there)
            (sym part) (filled-append b (joined bs) there))
