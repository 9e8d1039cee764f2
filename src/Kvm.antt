-- ===== src/Kvm.antt =====
-- kvm/host-kvm-example/host_kvm_simple.c: a program that loads a guest image into a virtual machine
-- and runs it. What the system answers to each call is a parameter; a result below 0 is a failure.
pub mod Files
pub mod Loop
mod Tests
use linux_kernel_ldd.Prelude.{
  ℕ, zero, suc, ◌+◌, Bool, not, List, [], ◌∷◌, ◌++◌, if◌then◌else◌, ℤ, pos, negsuc, is_neg,
  is_nonzero,
}
use linux_kernel_ldd.Kernel.Replay.{file, mapping, Outcome, claims, frees, stop}

abbrev pub e_ok : ℤ
e_ok = pos 0

abbrev pub e_not_ok : ℤ
e_not_ok = pos 1

-- The loop of `cp_guest_img` over the results of `read`: each is below 0, 0 at the end of the image,
-- or a number of bytes. The result is the offset of `p` in the memory.
pub cp_guest_img : List ℤ → ℕ → ℕ
cp_guest_img [] p = p
cp_guest_img (pos zero ∷ rs) p = p
cp_guest_img (pos (suc n) ∷ rs) p = cp_guest_img rs (p + suc n)
cp_guest_img (negsuc n ∷ rs) p = p

-- What the system answers, and what the reads of the image give. A pointer of `mmap` is whether it is
-- not NULL.
pub record Answers : Type 0 where
  pub open_kvm : ℤ
  pub open_img : ℤ
  pub create_vm : ℤ
  pub mmap_mem : Bool
  pub set_memory_region : ℤ
  pub img_reads : List ℤ
  pub create_vcpu : ℤ
  pub vcpu_mmap_size : ℤ
  pub mmap_run : Bool
  pub get_sregs : ℤ
  pub set_sregs : ℤ
  pub set_regs : ℤ

-- The descriptors and mappings of the program.
abbrev pub kvm_fd : ℕ
kvm_fd = 0

abbrev pub img_fd : ℕ
img_fd = 1

abbrev pub vm_fd : ℕ
vm_fd = 2

abbrev pub vcpu_fd : ℕ
vcpu_fd = 3

-- `vm_setup`: how far it fills the memory, its result and what it opens.
pub vm_setup : Answers → ℕ × Outcome
unfolding cp_guest_img
vm_setup a =
    if is_neg a.create_vm
    then (0, stop e_not_ok)
    else if not a.mmap_mem
    then (0, claims (file vm_fd) (stop e_not_ok))
    else if is_neg a.set_memory_region
    then (0, claims (file vm_fd) (claims (mapping 0) (stop e_not_ok)))
    else (cp_guest_img a.img_reads 0, claims (file vm_fd) (claims (mapping 0) (stop e_ok)))

-- `vcpu_reg`.
pub vcpu_reg : Answers → ℤ
vcpu_reg a =
    if is_neg a.get_sregs
    then e_not_ok
    else if is_neg a.set_sregs
    then e_not_ok
    else if is_neg a.set_regs
    then e_not_ok
    else e_ok

-- `vcpu_setup`.
pub vcpu_setup : Answers → Outcome
unfolding vcpu_reg
vcpu_setup a =
    if is_neg a.create_vcpu
    then stop e_not_ok
    else claims (file vcpu_fd) (
        if is_neg a.vcpu_mmap_size
        then stop e_not_ok
        else if not a.mmap_run
        then stop e_not_ok
        else claims (mapping 1) (stop (vcpu_reg a)))

-- `run->exit_reason`, for the reasons that the program tells apart.
pub data ExitReason : Type 0 where
  exit_io : ExitReason
  exit_shutdown : ExitReason
  exit_other : ExitReason

-- A `KVM_RUN`: its result, and where it is not below 0 the reason and the value on the port.
pub record KvmRun : Type 0 where
  pub result : ℤ
  pub exit_reason : ExitReason
  pub io_data : ℕ

-- Where `run_and_emulate` stands: in its loop, or returned.
pub data Progress : Type 0 where
  running : Progress
  returned : ℤ → Progress

-- What a round of the loop prints, and where it leaves the function.
pub record Round : Type 0 where
  pub printed : List ℕ
  pub progress : Progress

-- One round. The `ret` that the body assigns is declared in the loop; `return ret` after the loop is
-- of the outer one, which is E_OK from its declaration on.
pub round : KvmRun → Round
round r =
    if is_neg r.result
    then record { printed = []; progress = returned e_ok }
    else elim r.exit_reason [
      | exit_io ↦ record { printed = r.io_data ∷ []; progress = running }
      | exit_shutdown ↦ record { printed = []; progress = returned e_ok }
      | exit_other ↦ record { printed = []; progress = running }
    ]

-- `run_and_emulate` over the runs that the machine makes; `running` where they are used up.
pub run_and_emulate : List KvmRun → Round
run_and_emulate [] = record { printed = []; progress = running }
run_and_emulate (r ∷ rs) =
    let rest = run_and_emulate rs in
    elim (round r).progress [
      | running ↦ record { printed = (round r).printed ++ rest.printed; progress = rest.progress }
      | returned e ↦ record { printed = (round r).printed; progress = returned e }
    ]

-- The labels of `main`.
abbrev pub close_kvm : ℤ → Outcome
close_kvm ret = frees (file kvm_fd) (stop ret)

abbrev pub close_img : ℤ → Outcome
close_img ret = frees (file img_fd) (close_kvm ret)

-- What one routine claims before what follows it.
abbrev pub followed : Outcome → (ℤ → Outcome) → Outcome
followed (ret, log) next = ((next ret).0, log ++ (next ret).1)

-- `main` where the run of the machine ends with `ran`.
pub main : Answers → ℤ → Outcome
unfolding vm_setup vcpu_setup
main a ran =
    if is_neg a.open_kvm
    then stop e_not_ok
    else claims (file kvm_fd) (
        if is_neg a.open_img
        then close_kvm e_not_ok
        else claims (file img_fd) (
            followed (vm_setup a).1 (λ ret.
              if is_nonzero ret
              then close_img ret
              else followed (vcpu_setup a)
                  (λ ret'. if is_nonzero ret' then close_img ret' else close_img ran))))
