-- ===== src/Ramdisk/Clipping.antt =====
-- request_handle for a write that may reach over the end of the device.
use linux_kernel_ldd.Prelude.{
  ℕ, ◌+◌, ◌-◌, ◌≤◌, ◌≡◌, sym, ap, ◌∙◌, some, List, [], ◌∷◌, ◌++◌, arith, length, take, take-append,
  length-take, take-length,
}
use linux_kernel_ldd.Ramdisk.{dev_size, clipped, handle_write}
use linux_kernel_ldd.Ramdisk.Segments.{
  joined, patched, length-patched, patched-patched, patched-nil,
}
use linux_kernel_ldd.Ramdisk.Requests.{handle_write_step, clipped_inside}

-- The first segment's part of the bytes that fit, and the others'.
fitting-clipped :
    (off : ℕ) (b more : List ℕ)
    → off ≤ dev_size
    → let n = clipped off (length b) in
      take (dev_size - off) (b ++ more) ≡ take n b ++ take (dev_size - (off + n)) more
fitting-clipped off b more inside =
    let room : ℕ = dev_size - off in
    ground (arith, take-append room b more, take-length room b, take-length (length b) b)

-- On a memory of the device's size, a write request that starts in the device puts the bytes of its
-- segments, one behind the other, at its place, as many as there is room for up to the end of the
-- device; it drops the others, and leaves all other bytes of the device alone.
pub handle_write_clips :
    (off : ℕ) (segs : List (List ℕ)) (memory : List ℕ)
    → length memory ≡ dev_size
    → off ≤ dev_size
    → handle_write off segs memory ≡ some (patched off (take (dev_size - off) (joined segs)) memory)
unfolding handle_write joined
handle_write_clips off [] memory size inside =
    let none_fit = take-length (dev_size - off) [] (omega arith) in
    ap some (sym (ap (λ bytes. patched off bytes memory) none_fit ∙ patched-nil off memory))
handle_write_clips off (b ∷ bs) memory size inside =
    let n : ℕ = clipped off (length b) in
    let fits = clipped_inside off (length b) inside in
    let part = take n b in
    let memory' = patched off part memory in
    let room : ℕ = dev_size - (off + n) in
    let len : length part ≡ n = omega (arith, length-take n b) in
    handle_write_step off b bs memory size inside
    ∙ handle_write_clips (off + n) bs memory' (length-patched off part memory (omega arith) ∙ size)
        fits.0
    ∙ ap some (
        ap (λ m. patched (off + m) (take room (joined bs)) memory') (sym len)
        ∙ patched-patched off part (take room (joined bs)) memory (omega arith)
        ∙ ap (λ bytes. patched off bytes memory) (sym (fitting-clipped off b (joined bs) inside)))

-- How the bytes of a write request are cut into segments makes no difference, also where they reach
-- over the end of the device: two requests that start at the same place in the device, with the same
-- bytes behind one another, have the same result.
pub handle_write-joined :
    (off : ℕ) (segs segs' : List (List ℕ)) (memory : List ℕ)
    → length memory ≡ dev_size
    → off ≤ dev_size
    → joined segs ≡ joined segs'
    → handle_write off segs memory ≡ handle_write off segs' memory
handle_write-joined off segs segs' memory size inside same =
    handle_write_clips off segs memory size inside
    ∙ ap (λ bytes. some (patched off (take (dev_size - off) bytes) memory)) same
    ∙ sym (handle_write_clips off segs' memory size inside)
