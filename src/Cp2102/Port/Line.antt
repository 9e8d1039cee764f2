-- ===== src/Cp2102/Port/Line.antt =====
-- serial_cp2102_open, serial_cp2102_close and serial_cp2102_set_termios.
use linux_kernel_ldd.Prelude.{
  ◌≡◌, ◌≢◌, Bool, true, false, not, ◌&&◌, ◌||◌, none, some, List, [], ◌∷◌, ◌++◌, arith, ltb, ◌==◌,
  if◌then◌else◌, length, ℤ, is_nonzero,
}
use linux_kernel_ldd.Cp2102.{UsbCore}
use linux_kernel_ldd.Cp2102.Port.{
  PrvDev, Termios, Lctrl, Action, message, generic_open, generic_close, open_port, close_port,
  set_termios, line_control, default_baud_rate,
}

-- Whether the interface is on after some actions: the last message of IFC_ENABLE counts.
pub enabled_after : Bool → List Action → Bool
enabled_after on [] = on
enabled_after on (message m ∷ rest) =
    enabled_after (if m.request == 0 then m.value == 1 else on) rest
enabled_after on (generic_open ∷ rest) = enabled_after on rest
enabled_after on (generic_close ∷ rest) = enabled_after on rest

module _ (usb : UsbCore) where
  -- The last enabling message of an open turns the interface on exactly where the open succeeds, and
  -- that of a close turns it off; the open does so whatever its first message met with.
  pub open_port_enables :
      (dev : PrvDev) (on : Bool) (enabled opened disabled : ℤ)
      → let (ret, actions) = open_port usb dev enabled opened disabled in
        (ret ≡ opened)
        × (enabled_after on actions ≡ not (is_nonzero opened))
        × (enabled_after on (actions ++ close_port usb dev disabled) ≡ false)
  unfolding open_port close_port enabled_after
  open_port_enables dev on enabled opened disabled = ground arith

  -- The line control that is sent asks for eight data bits, and for a parity that is odd or even as the
  -- settings say; where they say none, and in the bits besides, it is what the stack happened to hold.
  pub line_control_lem :
      (t : Termios) (lctrl : Lctrl)
      → let l = line_control usb t lctrl in
        (l.data_8 ≡ true)
        × (l.odd ≡ ((t.parenb && t.parodd) || lctrl.odd))
        × (l.even ≡ ((t.parenb && not t.parodd) || lctrl.even))
        × (l.other ≡ lctrl.other)
  unfolding line_control
  line_control_lem t lctrl = ground arith

  -- Settings without parity, on a stack that held a parity bit, are sent to the chip as settings with
  -- parity: the word is not the one that a cleared variable would give.
  pub parity_from_stack :
      (dev : PrvDev) (t : Termios) (lctrl : Lctrl) (baud_status lctrl_status : ℤ)
      → t.parenb ≡ false
      → lctrl.odd ≡ true
      → lctrl.data_8 ≡ false
      → (set_termios usb dev false t lctrl baud_status lctrl_status).0
        ≢ (set_termios usb dev false t
            (record { odd = false; even = lctrl.even; data_8 = false; other = lctrl.other })
            baud_status
            lctrl_status).0
  unfolding set_termios
  parity_from_stack dev t lctrl baud_status lctrl_status p o d = ground arith

  -- Changed settings reach the chip in the order rate, line control; the rate that is put back into the
  -- settings is the one that was asked for, or the default where the chip refused it. Unchanged
  -- settings send nothing.
  pub set_termios_rate :
      (dev : PrvDev) (unchanged : Bool) (t : Termios) (lctrl : Lctrl) (baud_status lctrl_status : ℤ)
      → let (actions, rate) = set_termios usb dev unchanged t lctrl baud_status lctrl_status in
        (rate ≡ (
          if unchanged || not (ltb 0 t.baud)
          then none
          else some (if is_nonzero baud_status then default_baud_rate else t.baud)))
        × (length actions ≡ (if unchanged then 0 else if ltb 0 t.baud then 2 else 1))
  unfolding set_termios
  set_termios_rate dev unchanged t lctrl baud_status lctrl_status =
      ground (arith, usb.translate-error baud_status)
