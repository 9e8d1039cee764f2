-- ===== src/Kvm/Tests.antt =====
-- The theorems about host_kvm_simple.c at work.
use linux_kernel_ldd.Prelude.{ℕ, ◌≡◌, refl, inr, true, false, [], ◌∷◌, ◌++◌, arith, pos}
use linux_kernel_ldd.Kernel.Errno.{enomem}
use linux_kernel_ldd.Kernel.Replay.{file, held_after}
use linux_kernel_ldd.Kvm.{
  Answers, KvmRun, exit_io, exit_shutdown, returned, e_ok, run_and_emulate, main, kvm_fd, img_fd,
}
use linux_kernel_ldd.Kvm.Loop.{outputs, run_and_emulate-Ends}
use linux_kernel_ldd.Kvm.Files.{leaves, main_closes}

abbrev puts : ℕ → KvmRun
puts n = record { result = pos 0; exit_reason = exit_io; io_data = n }

abbrev halts : KvmRun
halts = record { result = pos 0; exit_reason = exit_shutdown; io_data = 0 }

run_and_emulate-Ends_example :
    run_and_emulate ((puts 1 ∷ puts 2 ∷ []) ++ halts ∷ puts 3 ∷ [])
    ≡ record { printed = outputs (puts 1 ∷ puts 2 ∷ []); progress = returned e_ok }
run_and_emulate-Ends_example =
    run_and_emulate-Ends (puts 1 ∷ puts 2 ∷ []) halts (puts 3 ∷ [])
      ((refl, λ e. ground arith), ((refl, λ e. ground arith), tt)) (inr refl)

-- Every call succeeds but the creation of the virtual processor.
abbrev no_vcpu : Answers
no_vcpu = record {
  open_kvm = pos 3;
  open_img = pos 4;
  create_vm = pos 5;
  mmap_mem = true;
  set_memory_region = pos 0;
  img_reads = pos 16 ∷ pos 0 ∷ [];
  create_vcpu = enomem;
  vcpu_mmap_size = pos 4096;
  mmap_run = true;
  get_sregs = pos 0;
  set_sregs = pos 0;
  set_regs = pos 0;
}

main_closes_example :
    (leaves (file kvm_fd) (held_after (main no_vcpu e_ok)) ≡ false)
    × (leaves (file img_fd) (held_after (main no_vcpu e_ok)) ≡ false)
main_closes_example = main_closes no_vcpu e_ok
