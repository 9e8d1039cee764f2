-- ===== src/Ramdisk/Cuts.antt =====
-- Requests of ramdisk_blk.c up to the cut of their bytes into segments.
use linux_kernel_ldd.Prelude.{
  ℕ, ◌-◌, ◌≤◌, ◌≡◌, ap, Option, some, List, [], ◌∷◌, append-nil, length, take,
}
use mathlib.Core.Quot
use mathlib.Core.Quot.{Quot, Quot-set}
use native.Mathlib.Nat.{ℕ_set}
use linux_kernel_ldd.Ramdisk.{dev_size, handle_write}
use linux_kernel_ldd.Ramdisk.Segments.{joined, patched}
use linux_kernel_ldd.Ramdisk.Clipping.{handle_write_clips, handle_write-joined}

ram_set : IsSet (Option (List ℕ))
ram_set = hlevel ℕ_set

bytes_set : IsSet (List ℕ)
bytes_set = hlevel ℕ_set

-- The same bytes, one behind the other.
abbrev pub SameBytes : List (List ℕ) → List (List ℕ) → Type 0
SameBytes segs segs' = joined segs ≡ joined segs'

-- The segments of a request, where their cut is forgotten.
abbrev pub Uncut : Type 0
Uncut = Quot SameBytes

pub bytes_of : Uncut → List ℕ
bytes_of = Quot.lift bytes_set joined (λ segs segs' same. same)

pub in_one : List ℕ → Uncut
in_one bytes = Quot.mk (bytes ∷ [])

joined-one : (bytes : List ℕ) → joined (bytes ∷ []) ≡ bytes
unfolding joined
joined-one bytes = append-nil bytes

-- Such requests are strings of bytes.
pub in_one-bytes_of : (u : Uncut) → in_one (bytes_of u) ≡ u
unfolding in_one bytes_of
in_one-bytes_of = Quot.ind (λ u. Quot-set _ _) (λ segs. Quot.sound (joined-one (joined segs)))

pub bytes_of-in_one : (bytes : List ℕ) → bytes_of (in_one bytes) ≡ bytes
unfolding in_one bytes_of
bytes_of-in_one bytes = joined-one bytes

module _ (off : ℕ) (memory : List ℕ) (size : length memory ≡ dev_size)
    (inside : off ≤ dev_size) where
  -- The write handler on them.
  write_uncut : Uncut → Option (List ℕ)
  write_uncut =
      Quot.lift ram_set (λ segs. handle_write off segs memory)
        (λ segs segs' same. handle_write-joined off segs segs' memory size inside same)

  -- On a memory of the device's size, at a place in the device, the write handler is a function of the
  -- request without its cut: on each cut of it the handler gives what that function gives, which is the
  -- memory with the bytes that fit at the place.
  write_uncut_lem :
      (segs : List (List ℕ)) (u : Uncut)
      → Quot.mk segs ≡ u
      → (handle_write off segs memory ≡ write_uncut u)
        × (write_uncut u ≡ some (patched off (take (dev_size - off) (bytes_of u)) memory))
  unfolding write_uncut bytes_of
  write_uncut_lem segs u same = (
    ap write_uncut same,
    Quot.ind
        (λ u.
          ram_set (write_uncut u) (some (patched off (take (dev_size - off) (bytes_of u)) memory)))
        (λ segs. handle_write_clips off segs memory size inside) u,
  )
