-- ===== src/Ramdisk/Segments.antt =====
-- Segments of a request, laid into the memory of ramdisk_blk.c and taken out of it.
use linux_kernel_ldd.Prelude.{
  ℕ, ◌+◌, ◌≤◌, ◌≡◌, refl, sym, ap, ◌∙◌, List, [], ◌∷◌, ◌++◌, append_assoc, arith, length, take,
  drop, length-append, take-append-drop, length-take, length-drop, take-append_add, drop-append_add,
  drop-drop, take-append_self, drop-append_self,
}
use native.Mathlib.Nat.{add-zero}
use mathlib.Core.Path.{ap₂}

-- The bytes of all segments, one behind the other.
unfoldable pub joined : List (List ℕ) → List ℕ
joined [] = []
joined (b ∷ bs) = b ++ joined bs

-- The memory with `bytes` from offset `off` on.
unfoldable pub patched : ℕ → List ℕ → List ℕ → List ℕ
patched off bytes memory = take off memory ++ (bytes ++ drop (off + length bytes) memory)

pub length-patched :
    (off : ℕ) (bytes memory : List ℕ)
    → off + length bytes ≤ length memory
    → length (patched off bytes memory) ≡ length memory
unfolding patched
length-patched off bytes memory h =
    let rest = drop (off + length bytes) memory in
    omega (
      arith,
      length-append (take off memory) (bytes ++ rest),
      length-append bytes rest,
      length-take off memory,
      length-drop (off + length bytes) memory,
    )

-- Two patches, the second right behind the first, are one.
pub patched-patched :
    (off : ℕ) (xs ys memory : List ℕ)
    → off + length xs ≤ length memory
    → patched (off + length xs) ys (patched off xs memory) ≡ patched off (xs ++ ys) memory
unfolding patched
patched-patched off xs ys memory h =
    let before = take off memory in
    let behind = drop (off + length xs) memory in
    let rest = drop (off + length xs + length ys) memory in
    ground (
      arith,
      length-take off memory,
      take-append_add before (xs ++ behind) (length xs),
      take-append_self xs behind,
      drop-append_add before (xs ++ behind) (length xs + length ys),
      drop-append_add xs behind (length ys),
      drop-drop (length ys) (off + length xs) memory,
      length-append xs ys,
      append_assoc before xs (ys ++ rest),
      append_assoc xs ys rest,
    )

pub patched-nil : (off : ℕ) (memory : List ℕ) → patched off [] memory ≡ memory
unfolding patched
patched-nil off memory = rw (add-zero off) (take-append-drop off memory)

-- The lengths of segments, and the bytes of the device that belong to segments of such lengths.
unfoldable pub lens : List (List ℕ) → List ℕ
lens [] = []
lens (b ∷ bs) = length b ∷ lens bs

unfoldable pub slices : ℕ → List ℕ → List ℕ → List (List ℕ)
slices off [] memory = []
slices off (n ∷ ns) memory = take n (drop off memory) ∷ slices (off + n) ns memory

slices-patched_head :
    (off : ℕ) (b more memory : List ℕ)
    → off ≤ length memory
    → take (length b) (drop off (patched off (b ++ more) memory)) ≡ b
unfolding patched
slices-patched_head off b more memory h =
    let before = take off memory in
    let rest = drop (off + length (b ++ more)) memory in
    ground (
      arith,
      length-take off memory,
      drop-append_self before ((b ++ more) ++ rest),
      append_assoc b more rest,
      take-append_self b (more ++ rest),
    )

pub slices-patched :
    (off : ℕ) (segs : List (List ℕ)) (memory : List ℕ)
    → off + length (joined segs) ≤ length memory
    → slices off (lens segs) (patched off (joined segs) memory) ≡ segs
unfolding slices lens joined
slices-patched off [] memory h = refl
slices-patched off (b ∷ bs) memory h =
    let split = length-append b (joined bs) in
    ap₂ ◌∷◌ (slices-patched_head off b (joined bs) memory (omega arith)) (
      ap (slices (off + length b) (lens bs))
        (sym (patched-patched off b (joined bs) memory (omega (arith, split))))
      ∙ slices-patched (off + length b) bs (patched off b memory)
          (omega (arith, split, length-patched off b memory (omega (arith, split)))))

pub sum : List ℕ → ℕ
sum [] = 0
sum (n ∷ ns) = n + sum ns

pub length-joined : (bs : List (List ℕ)) → length (joined bs) ≡ sum (lens bs)
unfolding joined lens sum
length-joined [] = refl
length-joined (b ∷ bs) = omega (arith, length-append b (joined bs), length-joined bs)
