-- ===== src/Cp2102/Tests.antt =====
-- The theorems about the CP2102 driver at work on one port.
use linux_kernel_ldd.Prelude.{◌≡◌, refl, true, false, pos}
use linux_kernel_ldd.Kernel.Errno.{eio}
use linux_kernel_ldd.Cp2102.{UsbCore}
use linux_kernel_ldd.Cp2102.Port.{PrvDev, Mcr, Msr, Lines, tiocmset}
use linux_kernel_ldd.Cp2102.Port.Modem.{tiocmset_lines}

abbrev core : UsbCore
core = record { translate = λ e. eio; translate-error = λ e h. refl }

abbrev off : Mcr
off = record { dtr = false; rts = false; dtr_mask = false; rts_mask = false; other = 0 }

abbrev ringing : Msr
ringing = record { dtr = true; rts = false; cts = false; dsr = false; ri = true; dcd = false }

abbrev port : PrvDev
port = record { interface_number = 0; mcr = off; msr = ringing }

abbrev only_rts : Lines
only_rts = record { dtr = false; rts = true }

abbrev only_dtr : Lines
only_dtr = record { dtr = true; rts = false }

tiocmset_lines_example :
    let m = (tiocmset core port only_rts only_dtr off (pos 0)).2.mcr in
    (m.dtr_mask ≡ true) × (m.rts_mask ≡ true) × (m.rts ≡ true) × (m.dtr ≡ false)
tiocmset_lines_example = tiocmset_lines core port only_rts only_dtr off (pos 0) refl refl
