-- ===== src/Kernel/KfifoDriver.antt =====
-- A driver of character devices whose reads and writes are those of kernelnewbies.c.
use linux_kernel_ldd.Prelude.{ℕ, ◌≡◌, Bool, List}
use linux_kernel_ldd.Kernel.CharDriver.{CharDriver}
use linux_kernel_ldd.Kernel.Kfifo.{Kfifo}
use linux_kernel_ldd.Kernelnewbies.{State, write_fifo, read_fifo}

-- The FIFO and the mutexes of a device, on which its reads and writes run.
pub record KfifoDriver (k : Kfifo) : Type 1 where
  pub driver : CharDriver
  pub chars : driver.Devc → State k.Fifo
  pub chars-write :
      (signal : Bool) (buf : List ℕ) (count : ℕ) (dev : driver.Devc)
      → let (out, bytes, dev') = driver.write signal buf count dev in
        let (out', bytes', s) = write_fifo k signal buf count (chars dev) in
        (out ≡ out') × (bytes ≡ bytes') × (chars dev' ≡ s)
  pub chars-read :
      (signal : Bool) (room count : ℕ) (dev : driver.Devc)
      → let (out, bytes, dev') = driver.read signal room count dev in
        let (out', bytes', s) = read_fifo k signal room count (chars dev) in
        (out ≡ out') × (bytes ≡ bytes') × (chars dev' ≡ s)
