-- ===== src/Kvm/Loop.antt =====
-- run_and_emulate and cp_guest_img: the loops of host_kvm_simple.c.
use linux_kernel_ldd.Prelude.{
  ℕ, zero, suc, ◌+◌, ◌<◌, ◌≡◌, ◌≢◌, refl, ◌⊎◌, true, false, List, [], ◌∷◌, ◌++◌, arith, ℤ, pos,
  negsuc, is_neg,
}
use linux_kernel_ldd.Kvm.{
  KvmRun, running, returned, round, run_and_emulate, exit_io, exit_shutdown, exit_other, e_ok,
  cp_guest_img,
}

-- A run after which the loop goes on.
abbrev pub GoesOn : KvmRun → Type 0
GoesOn r = (is_neg r.result ≡ false) × (r.exit_reason ≢ exit_shutdown)

-- A failed run, or a shutdown of the guest.
abbrev pub Ends : KvmRun → Type 0
Ends r = (is_neg r.result ≡ true) ⊎ (r.exit_reason ≡ exit_shutdown)

abbrev pub AllGoOn : List KvmRun → Type 0
AllGoOn [] = Unit
AllGoOn (r ∷ rs) = GoesOn r × AllGoOn rs

-- The values that the guest puts out.
pub outputs : List KvmRun → List ℕ
outputs [] = []
outputs (r ∷ rs) = elim r.exit_reason [
  | exit_io ↦ r.io_data ∷ outputs rs
  | exit_shutdown ↦ outputs rs
  | exit_other ↦ outputs rs
]

-- `run_and_emulate` prints what the guest puts out, in order, up to the first failed run or shutdown,
-- and returns there. It returns E_OK, also for a failed run and for a shutdown.
pub run_and_emulate-Ends :
    (before : List KvmRun) (r : KvmRun) (after : List KvmRun)
    → AllGoOn before
    → Ends r
    → run_and_emulate (before ++ r ∷ after)
      ≡ record { printed = outputs before; progress = returned e_ok }
unfolding run_and_emulate round outputs
run_and_emulate-Ends [] r after go ends = ground arith
run_and_emulate-Ends (b ∷ bs) r after go ends =
    ground (arith, run_and_emulate-Ends bs r after go.1 ends)

-- As long as the guest runs, the loop does.
pub run_and_emulate_runs :
    (rs : List KvmRun)
    → AllGoOn rs
    → run_and_emulate rs ≡ record { printed = outputs rs; progress = running }
unfolding run_and_emulate round outputs
run_and_emulate_runs [] go = refl
run_and_emulate_runs (r ∷ rs) go = ground (arith, run_and_emulate_runs rs go.1)

-- The sizes of the pieces that `read` gives.
pub total : List ℕ → ℕ
total [] = 0
total (n ∷ ns) = n + total ns

pub pieces : List ℕ → List ℤ
pieces [] = []
pieces (n ∷ ns) = pos n ∷ pieces ns

abbrev pub AllPositive : List ℕ → Type 0
AllPositive [] = Unit
AllPositive (n ∷ ns) = (0 < n) × AllPositive ns

-- `cp_guest_img` puts the pieces of the image one behind the other, and stops at the end of the image
-- or at an error, whatever would follow.
pub cp_guest_img_lem :
    (ns : List ℕ) (last : ℤ) (more : List ℤ) (p : ℕ)
    → AllPositive ns
    → (last ≡ pos 0) ⊎ (is_neg last ≡ true)
    → cp_guest_img (pieces ns ++ last ∷ more) p ≡ p + total ns
unfolding cp_guest_img total pieces
cp_guest_img_lem [] (pos zero) more p h e = omega arith
cp_guest_img_lem [] (pos (suc n)) more p h e = ground arith
cp_guest_img_lem [] (negsuc n) more p h e = omega arith
cp_guest_img_lem (zero ∷ ns) last more p h e = absurd (omega arith)
cp_guest_img_lem (suc n ∷ ns) last more p h e =
    omega (arith, cp_guest_img_lem ns last more (p + suc n) h.1 e)
