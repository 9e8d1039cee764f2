-- ===== src/Cp2102.antt =====
-- linux-device-drivers/18.usb-ttl-cp2102: the USB to serial converter CP2102. This file is
-- cp2102if.c, the control messages of the chip; Cp2102/Port is usb_ttl_cp2102.c. What the USB core
-- answers to a message is an argument, and `usb_translate_errors` a parameter.
pub mod Port
mod Tests
use linux_kernel_ldd.Prelude.{ℕ, ◌≡◌, true, if◌then◌else◌, ℤ, is_neg, is_nonzero}

-- A control message: its request, its type, `wValue`, `wIndex` and the number of data bytes.
pub record ControlMsg : Type 0 where
  pub request : ℕ
  pub request_type : ℕ
  pub value : ℕ
  pub index : ℕ
  pub size : ℕ

-- `usb_translate_errors`: an error stays an error.
pub record UsbCore : Type 0 where
  pub translate : ℤ → ℤ
  pub translate-error : (e : ℤ) → is_nonzero e ≡ true → is_neg (translate e) ≡ true

abbrev pub ifc_enable_req : ℕ
ifc_enable_req = 0x00

abbrev pub set_line_ctl_req : ℕ
set_line_ctl_req = 0x03

abbrev pub get_line_ctl_req : ℕ
get_line_ctl_req = 0x04

abbrev pub set_baudrate_req : ℕ
set_baudrate_req = 0x1e

abbrev pub get_baudrate_req : ℕ
get_baudrate_req = 0x1d

abbrev pub get_mdmsts_req : ℕ
get_mdmsts_req = 0x08

abbrev pub set_mhs_req : ℕ
set_mhs_req = 0x07

-- `bmRequestType` of a message to the chip, and of one that the chip answers.
abbrev pub host_to_interface : ℕ
host_to_interface = 0x41

abbrev pub interface_to_host : ℕ
interface_to_host = 0xc1

module _ (usb : UsbCore) where
  open usb use {translate}

  -- The end of each function: an error of the message is translated.
  abbrev pub checked : ℤ → ℤ
  checked status = if is_nonzero status then translate status else status

  -- A message to the interface `index`, with what its function returns.
  abbrev pub sends : ℕ → ℕ → ℕ → ℕ → ℤ → ControlMsg × ℤ
  sends request value index size status = (
    record {
      request = request;
      request_type = host_to_interface;
      value = value;
      index = index;
      size = size;
    },
    checked status,
  )

  abbrev pub asks : ℕ → ℕ → ℕ → ℤ → ControlMsg × ℤ
  asks request index size status = (
    record {
      request = request;
      request_type = interface_to_host;
      value = 0;
      index = index;
      size = size;
    },
    checked status,
  )

  -- `cp2102_enableif`.
  pub cp2102_enableif : ℕ → ℤ → ControlMsg × ℤ
  cp2102_enableif index status = sends ifc_enable_req 1 index 0 status

  -- `cp2102_disableif`.
  pub cp2102_disableif : ℕ → ℤ → ControlMsg × ℤ
  cp2102_disableif index status = sends ifc_enable_req 0 index 0 status

  -- `cp2102_set_lctrl`.
  pub cp2102_set_lctrl : ℕ → ℕ → ℤ → ControlMsg × ℤ
  cp2102_set_lctrl index val status = sends set_line_ctl_req val index 0 status

  -- `cp2102_get_lctrl`; the answer is two bytes.
  pub cp2102_get_lctrl : ℕ → ℤ → ControlMsg × ℤ
  cp2102_get_lctrl index status = asks get_line_ctl_req index 2 status

  -- `cp2102_set_baud`; the rate is four bytes of data.
  pub cp2102_set_baud : ℕ → ℤ → ControlMsg × ℤ
  cp2102_set_baud index status = sends set_baudrate_req 0 index 4 status

  -- `cp2102_get_baud`; the answer is four bytes.
  pub cp2102_get_baud : ℕ → ℤ → ControlMsg × ℤ
  cp2102_get_baud index status = asks get_baudrate_req index 4 status

  -- `cp2102_get_mdmstat`; the answer is one byte.
  pub cp2102_get_mdmstat : ℕ → ℤ → ControlMsg × ℤ
  cp2102_get_mdmstat index status = asks get_mdmsts_req index 1 status

  -- `cp2102_set_mdmhndshk`.
  pub cp2102_set_mdmhndshk : ℕ → ℕ → ℤ → ControlMsg × ℤ
  cp2102_set_mdmhndshk index val status = sends set_mhs_req val index 0 status
