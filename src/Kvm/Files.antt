-- ===== src/Kvm/Files.antt =====
-- main of host_kvm_simple.c: which descriptors are open at its return.
use linux_kernel_ldd.Prelude.{
  ◌≡◌, Bool, true, false, ◌||◌, Option, none, some, List, [], ◌∷◌, arith, ℤ, is_neg,
}
use linux_kernel_ldd.Kernel.Replay.{file, Resource, same, held_after}
use linux_kernel_ldd.Kvm.{Answers, main, vm_setup, vcpu_setup, kvm_fd, img_fd, e_ok}

-- Whether `r` is among what is held.
abbrev pub holds : Resource → List Resource → Bool
holds r [] = false
holds r (s ∷ held) = same r s || holds r held

-- Whether `r` is held at the end; a fault counts as holding it.
abbrev pub leaves : Resource → Option (List Resource) → Bool
leaves r none = true
leaves r (some held) = holds r held

-- Whatever call fails, and however the run ends, `main` has closed /dev/kvm and the image at its
-- return, each once if it was opened and never otherwise.
pub main_closes :
    (a : Answers) (ran : ℤ)
    → (leaves (file kvm_fd) (held_after (main a ran)) ≡ false)
      × (leaves (file img_fd) (held_after (main a ran)) ≡ false)
unfolding main
main_closes a ran = (ground arith, ground arith)

-- `main` returns E_OK only where every set-up call succeeded and the run returned E_OK.
pub main_ok :
    (a : Answers) (ran : ℤ)
    → (main a ran).0 ≡ e_ok
    → (is_neg a.open_kvm ≡ false)
      × (is_neg a.open_img ≡ false)
      × ((vm_setup a).1.0 ≡ e_ok)
      × ((vcpu_setup a).0 ≡ e_ok)
      × (ran ≡ e_ok)
unfolding main
main_ok a ran h = ground arith
