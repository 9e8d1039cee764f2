-- ===== src/Kernel/CharDriver.antt =====
-- A driver of character devices as open files of it use it.
use linux_kernel_ldd.Prelude.{ℕ, ◌≡◌, Bool, List, ℤ}
use linux_kernel_ldd.Kernelnewbies.{Reply}

-- The number of a device; its set-up, for what `kfifo_alloc` returns; and the calls for a write and a read.
-- All three leave the number alone.
pub record CharDriver : Type 1 where
  pub Devc : Type 0
  pub devnr : Devc → ℕ
  pub setup : ℤ → Devc → ℤ × Devc
  pub write : Bool → List ℕ → ℕ → Devc → Reply × List ℕ × Devc
  pub read : Bool → ℕ → ℕ → Devc → Reply × List ℕ × Devc
  pub devnr-setup : (alloc : ℤ) (dev : Devc) → devnr (setup alloc dev).1 ≡ devnr dev
  pub devnr-write :
      (signal : Bool) (buf : List ℕ) (count : ℕ) (dev : Devc)
      → devnr (write signal buf count dev).2 ≡ devnr dev
  pub devnr-read :
      (signal : Bool) (room count : ℕ) (dev : Devc)
      → devnr (read signal room count dev).2 ≡ devnr dev
