-- ===== src/Ds1307.antt =====
-- linux-device-drivers/15.ds1307_smbus_drv/ds1307_rtc.c: the clock chip DS1307 on an SMBus. The bus,
-- the chip and the conversions of linux/bcd.h are parameters.
pub mod Clock
mod Tests
use linux_kernel_ldd.Prelude.{
  ℕ, zero, suc, ◌+◌, ◌-◌, ◌*◌, ◌/◌, ◌%◌, ◌^◌, ◌<◌, ◌≡◌, Bool, not, if◌then◌else◌, ℤ, pos, negsuc,
  is_neg, is_nonzero,
}
use linux_kernel_ldd.Kernel.Errno.{enomem}

-- `int` to `unsigned int`, and `int` to `u8`.
abbrev pub to_unsigned : ℤ → ℕ
to_unsigned (pos n) = n % 2 ^ 32
to_unsigned (negsuc n) = 2 ^ 32 - 1 - n % 2 ^ 32

abbrev pub to_u8 : ℤ → ℕ
to_u8 (pos n) = n % 256
to_u8 (negsuc n) = 255 - n % 256

abbrev pub plus_one : ℤ → ℤ
plus_one (pos n) = pos (n + 1)
plus_one (negsuc zero) = pos 0
plus_one (negsuc (suc n)) = negsuc n

abbrev pub minus_one : ℕ → ℤ
minus_one zero = negsuc 0
minus_one (suc n) = pos n

-- The fields of `struct rtc_time` that the driver uses; they are `int`s.
pub record RtcTime : Type 0 where
  pub tm_sec : ℤ
  pub tm_min : ℤ
  pub tm_hour : ℤ
  pub tm_wday : ℤ
  pub tm_mday : ℤ
  pub tm_mon : ℤ
  pub tm_year : ℤ

-- `bcd2bin` and `bin2bcd` of linux/bcd.h, on two digits.
pub record Bcd : Type 0 where
  pub bcd2bin : ℕ → ℕ
  pub bin2bcd : ℕ → ℕ
  pub bcd2bin_lem : (b : ℕ) → b < 256 → bcd2bin b ≡ b / 16 * 10 + b % 16
  pub bin2bcd_lem : (v : ℕ) → v < 100 → bin2bcd v ≡ v / 10 * 16 + v % 10

-- A chip on its bus: `i2c_smbus_read_byte_data`, with an error below 0, and
-- `i2c_smbus_write_byte_data`, whose result the driver drops.
pub record Smbus : Type 1 where
  pub Chip : Type 0
  pub read_byte_data : Chip → ℕ → ℤ
  pub write_byte_data : Chip → ℕ → ℕ → Chip

abbrev pub reg_offset_secs : ℕ
reg_offset_secs = 0

abbrev pub reg_offset_mins : ℕ
reg_offset_mins = 1

abbrev pub reg_offset_hours : ℕ
reg_offset_hours = 2

abbrev pub reg_offset_day : ℕ
reg_offset_day = 3

abbrev pub reg_offset_date : ℕ
reg_offset_date = 4

abbrev pub reg_offset_month : ℕ
reg_offset_month = 5

abbrev pub reg_offset_year : ℕ
reg_offset_year = 6

-- `rtc_info`.
pub record RtcInfo : Type 0 where
  pub secs : ℕ
  pub mins : ℕ
  pub hours : ℕ
  pub day : ℕ
  pub date : ℕ
  pub month : ℕ
  pub year : ℕ

module _ (bcd : Bcd) (bus : Smbus) where
  open bcd use {bcd2bin, bin2bcd}
  open bus use {Chip, read_byte_data, write_byte_data}

  -- The first half of `ds1307_get_time`: a `u8` keeps the low bits of what a read returns, of an error
  -- too.
  pub read_info : Chip → RtcInfo
  read_info c = record {
    secs = to_u8 (read_byte_data c reg_offset_secs);
    mins = to_u8 (read_byte_data c reg_offset_mins);
    hours = to_u8 (read_byte_data c reg_offset_hours);
    day = to_u8 (read_byte_data c reg_offset_day);
    date = to_u8 (read_byte_data c reg_offset_date);
    month = to_u8 (read_byte_data c reg_offset_month);
    year = to_u8 (read_byte_data c reg_offset_year);
  }

  -- The second half. The masks 0x7f, 0x3f, 0x1f and 0x07 are remainders by powers of 2.
  pub from_info : RtcInfo → RtcTime
  from_info i = record {
    tm_sec = pos (bcd2bin (i.secs % 128));
    tm_min = pos (bcd2bin (i.mins % 128));
    tm_hour = pos (bcd2bin (i.hours % 64));
    tm_wday = minus_one (bcd2bin (i.day % 8));
    tm_mday = pos (bcd2bin (i.date % 64));
    tm_mon = minus_one (bcd2bin (i.month % 32));
    tm_year = pos (bcd2bin i.year + 100);
  }

  -- `ds1307_get_time`.
  pub get_time : Chip → ℤ × RtcTime
  unfolding read_info from_info
  get_time c = (pos 0, from_info (read_info c))

  -- The first half of `ds1307_set_time`: `bin2bcd` takes an `unsigned` and gives an `unsigned char`.
  pub to_info : RtcTime → RtcInfo
  to_info t = record {
    secs = bin2bcd (to_unsigned t.tm_sec) % 256;
    mins = bin2bcd (to_unsigned t.tm_min) % 256;
    hours = bin2bcd (to_unsigned t.tm_hour) % 256;
    day = bin2bcd (to_unsigned (plus_one t.tm_wday)) % 256;
    date = bin2bcd (to_unsigned t.tm_mday) % 256;
    month = bin2bcd (to_unsigned (plus_one t.tm_mon)) % 256;
    year = bin2bcd ((to_unsigned t.tm_year + 2 ^ 32 - 100) % 2 ^ 32) % 256;
  }

  -- The second half: the registers, one by one.
  pub write_info : RtcInfo → Chip → Chip
  write_info i c =
      let c1 = write_byte_data c reg_offset_secs i.secs in
      let c2 = write_byte_data c1 reg_offset_mins i.mins in
      let c3 = write_byte_data c2 reg_offset_hours i.hours in
      let c4 = write_byte_data c3 reg_offset_day i.day in
      let c5 = write_byte_data c4 reg_offset_date i.date in
      let c6 = write_byte_data c5 reg_offset_month i.month in
      write_byte_data c6 reg_offset_year i.year

  -- `ds1307_set_time`.
  pub set_time : RtcTime → Chip → ℤ × Chip
  unfolding to_info write_info
  set_time t c = (pos 0, write_info (to_info t) c)

-- What `ds1307_probe` gets from `devm_kzalloc`, `devm_rtc_allocate_device` and
-- `devm_rtc_register_device`.
pub record Answers : Type 0 where
  pub kzalloc : Bool
  pub allocate_device : ℤ
  pub register_device : ℤ

-- `ds1307_probe`; what it allocates the kernel frees with the device.
pub ds1307_probe : Answers → ℤ
ds1307_probe a =
    if not a.kzalloc
    then enomem
    else if is_neg a.allocate_device
    then a.allocate_device
    else if is_nonzero a.register_device
    then a.register_device
    else pos 0
