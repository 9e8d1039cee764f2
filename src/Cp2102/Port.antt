-- ===== src/Cp2102/Port.antt =====
-- linux-device-drivers/18.usb-ttl-cp2102/usb_ttl_cp2102.c: the handlers of the serial port.
pub mod Modem
pub mod Line
use linux_kernel_ldd.Prelude.{
  ℕ, ◌+◌, Bool, true, false, not, Option, none, some, List, [], ◌∷◌, ltb, if◌then◌else◌, ℤ, pos,
  is_nonzero,
}
use linux_kernel_ldd.Cp2102.{
  UsbCore, ControlMsg, cp2102_enableif, cp2102_disableif, cp2102_set_lctrl, cp2102_set_baud,
  cp2102_get_mdmstat, cp2102_set_mdmhndshk,
}
use linux_kernel_ldd.Kernel.Errno.{enomem}

-- The modem control word, an `u16`, as the bits MCR_DTR, MCR_RTS, MCR_DTR_MASK and MCR_RTS_MASK, and
-- the number that its other bits make.
pub record Mcr : Type 0 where
  pub dtr : Bool
  pub rts : Bool
  pub dtr_mask : Bool
  pub rts_mask : Bool
  pub other : ℕ

abbrev pub bit_value : Bool → ℕ → ℕ
bit_value true n = n
bit_value false n = 0

abbrev pub mcr_word : Mcr → ℕ
mcr_word m =
    bit_value m.dtr 0x0001
    + bit_value m.rts 0x0002
    + bit_value m.dtr_mask 0x0100
    + bit_value m.rts_mask 0x0200
    + m.other

-- The line control word: PARITY_ODD_MASK, PARITY_EVEN_MASK, DATA_8_MASK, and the other bits.
pub record Lctrl : Type 0 where
  pub odd : Bool
  pub even : Bool
  pub data_8 : Bool
  pub other : ℕ

abbrev pub lctrl_word : Lctrl → ℕ
lctrl_word l =
    bit_value l.odd 0x0010 + bit_value l.even 0x0020 + bit_value l.data_8 0x0800 + l.other

-- The modem status byte by its bits.
pub record Msr : Type 0 where
  pub dtr : Bool
  pub rts : Bool
  pub cts : Bool
  pub dsr : Bool
  pub ri : Bool
  pub dcd : Bool

-- `struct cp2102_prv_dev`; the mutex is held within each handler only.
pub record PrvDev : Type 0 where
  pub interface_number : ℕ
  pub mcr : Mcr
  pub msr : Msr

-- What a handler does on the bus, in order.
pub data Action : Type 0 where
  message : ControlMsg → Action
  generic_open : Action
  generic_close : Action

-- The lines of TIOCMSET that the driver knows.
pub record Lines : Type 0 where
  pub dtr : Bool
  pub rts : Bool

-- The settings of a terminal that the driver reads.
pub record Termios : Type 0 where
  pub baud : ℕ
  pub parenb : Bool
  pub parodd : Bool

abbrev pub default_baud_rate : ℕ
default_baud_rate = 9600

module _ (usb : UsbCore) where
  -- `serial_cp2102_open`: the result of `cp2102_enableif` is overwritten by that of
  -- `usb_serial_generic_open`.
  pub open_port : PrvDev → ℤ → ℤ → ℤ → ℤ × List Action
  unfolding cp2102_enableif cp2102_disableif
  open_port dev enabled opened disabled =
      let enable = (cp2102_enableif usb dev.interface_number enabled).0 in
      let disable = (cp2102_disableif usb dev.interface_number disabled).0 in
      if is_nonzero opened
      then (opened, message enable ∷ generic_open ∷ message disable ∷ [])
      else (pos 0, message enable ∷ generic_open ∷ [])

  -- `serial_cp2102_close`.
  pub close_port : PrvDev → ℤ → List Action
  unfolding cp2102_disableif
  close_port dev disabled =
      generic_close ∷ message (cp2102_disableif usb dev.interface_number disabled).0 ∷ []

  -- The line control that `serial_cp2102_set_termios` makes of the uninitialised `lctrl`.
  pub line_control : Termios → Lctrl → Lctrl
  line_control t lctrl =
      let parity =
        if t.parenb
        then (if t.parodd then record lctrl { odd = true } else record lctrl { even = true })
        else lctrl in
      record parity { data_8 = true }

  -- `serial_cp2102_set_termios`: its messages, and the rate that it puts into the settings, if any.
  -- `unchanged`: there are old settings, and `tty_termios_hw_change` sees no difference.
  pub set_termios : PrvDev → Bool → Termios → Lctrl → ℤ → ℤ → List Action × Option ℕ
  unfolding cp2102_set_baud cp2102_set_lctrl line_control
  set_termios dev unchanged t lctrl baud_status lctrl_status =
      let (baud_msg, baud_ret) = cp2102_set_baud usb dev.interface_number baud_status in
      let line =
        message
          (cp2102_set_lctrl usb dev.interface_number (lctrl_word (line_control t lctrl))
            lctrl_status).0 in
      if unchanged
      then ([], none)
      else if ltb 0 t.baud
      then (
        message baud_msg ∷ line ∷ [],
        some (if is_nonzero baud_ret then default_baud_rate else t.baud),
      )
      else (line ∷ [], none)

  -- The word that `serial_cp2102_tiocmset` makes of the uninitialised `mcr`, statement by statement.
  pub modem_control : Lines → Lines → Mcr → Mcr
  modem_control set clear mcr =
      let mcr1 = if set.rts then record mcr { rts = true; rts_mask = true } else mcr in
      let mcr2 = if set.dtr then record mcr1 { rts = true; dtr_mask = true } else mcr1 in
      let mcr3 = if clear.rts then record mcr2 { rts = false; rts_mask = true } else mcr2 in
      if clear.dtr then record mcr3 { dtr = false; dtr_mask = true } else mcr3

  -- `serial_cp2102_tiocmset`: the word is kept also where the message fails.
  pub tiocmset : PrvDev → Lines → Lines → Mcr → ℤ → ℤ × Action × PrvDev
  unfolding cp2102_set_mdmhndshk modem_control
  tiocmset dev set clear mcr status =
      let word = modem_control set clear mcr in
      let (msg, ret) = cp2102_set_mdmhndshk usb dev.interface_number (mcr_word word) status in
      (ret, message msg, record dev { mcr = word })

  -- `serial_cp2102_tiocmget`: TIOCM_DTR, TIOCM_RTS, TIOCM_CTS, TIOCM_DSR, TIOCM_RI and TIOCM_CD are
  -- single bits, so that their union is their sum.
  pub tiocm_word : Msr → ℕ
  tiocm_word msr =
      bit_value msr.dtr 0x002
      + bit_value msr.rts 0x004
      + bit_value msr.cts 0x020
      + bit_value msr.dsr 0x100
      + bit_value msr.ri 0x080
      + bit_value msr.dcd 0x040

  pub tiocmget : PrvDev → Msr → ℤ → ℤ × PrvDev
  unfolding cp2102_get_mdmstat tiocm_word
  tiocmget dev msr status =
      let ret = (cp2102_get_mdmstat usb dev.interface_number status).1 in
      if is_nonzero ret then (ret, dev) else (pos (tiocm_word msr), record dev { msr = msr })

abbrev no_lines : Mcr
no_lines = record { dtr = false; rts = false; dtr_mask = false; rts_mask = false; other = 0 }

abbrev no_status : Msr
no_status = record { dtr = false; rts = false; cts = false; dsr = false; ri = false; dcd = false }

-- `serial_cp2102_port_probe`, for whether `devm_kzalloc` gives memory and the number of the interface:
-- the result, and the data of the port.
pub port_probe : Bool → ℕ → ℤ × Option PrvDev
port_probe kzalloc number =
    if not kzalloc
    then (enomem, none)
    else (pos 0, some (record { interface_number = number; mcr = no_lines; msr = no_status }))
