-- ===== src/Ds1307/Clock.antt =====
-- ds1307_get_time and ds1307_set_time together.
use linux_kernel_ldd.Prelude.{
  ℕ, ◌+◌, ◌-◌, ◌*◌, ◌/◌, ◌%◌, ◌^◌, ◌≤◌, ◌<◌, ◌≡◌, sym, ap, ◌∙◌, arith, ◌==◌, if◌then◌else◌, ℤ, pos,
}
use native.Mathlib.Numerals.{add-one}
use linux_kernel_ldd.Ds1307.{
  minus_one, plus_one, RtcTime, Bcd, Smbus, RtcInfo, read_info, from_info, get_time, to_info,
  write_info, set_time, to_unsigned,
}

-- A chip that keeps its registers, of a byte each: a write is read back, and leaves the other
-- registers alone.
pub record Keeps (bus : Smbus) : Type 0 where
  pub read_write :
      (c : bus.Chip) (r v s : ℕ)
      → bus.read_byte_data (bus.write_byte_data c r v) s
        ≡ (if r == s then pos (v % 256) else bus.read_byte_data c s)

-- A time of the years 2000 to 2099; `wday` and `mon` count from 0, `year` from 1900.
pub record Calendar : Type 0 where
  pub sec : ℕ
  pub min : ℕ
  pub hour : ℕ
  pub wday : ℕ
  pub mday : ℕ
  pub mon : ℕ
  pub year : ℕ

pub record InRange (t : Calendar) : Type 0 where
  pub sec_range : t.sec < 60
  pub min_range : t.min < 60
  pub hour_range : t.hour < 24
  pub wday_range : t.wday < 7
  pub mday_range : t.mday < 32
  pub mon_range : t.mon < 12
  pub year_low : 100 ≤ t.year
  pub year_high : t.year < 200

abbrev pub to_rtc : Calendar → RtcTime
to_rtc t = record {
  tm_sec = pos t.sec;
  tm_min = pos t.min;
  tm_hour = pos t.hour;
  tm_wday = pos t.wday;
  tm_mday = pos t.mday;
  tm_mon = pos t.mon;
  tm_year = pos t.year;
}

-- Registers hold bytes.
pub record IsBytes (i : RtcInfo) : Type 0 where
  pub secs_byte : i.secs < 256
  pub mins_byte : i.mins < 256
  pub hours_byte : i.hours < 256
  pub day_byte : i.day < 256
  pub date_byte : i.date < 256
  pub month_byte : i.month < 256
  pub year_byte : i.year < 256

module _ (bcd : Bcd) (bus : Smbus) (keeps : Keeps bus) where
  open bus use {Chip, read_byte_data, write_byte_data}

  read-write_info :
      (i : RtcInfo) (c : Chip) → IsBytes i → read_info bcd bus (write_info bcd bus i c) ≡ i
  unfolding read_info write_info
  read-write_info i c h = simp (keeps.read_write) (ground arith)

-- Packed decimal and back, for a field whose register has `m` values.
digits :
    (bcd : Bcd) (v m : ℕ)
    → v < 100
    → v / 10 * 16 + v % 10 < m
    → m ≤ 256
    → bcd.bcd2bin (bcd.bin2bcd v % 256 % m) ≡ v
digits bcd v m h lt le =
    let packed = bcd.bin2bcd_lem v h in
    let small : bcd.bin2bcd v % 256 % m ≡ bcd.bin2bcd v = grind arith in
    rw small (omega (arith, packed, bcd.bcd2bin_lem (bcd.bin2bcd v) (omega arith)))

module _ (bcd : Bcd) where
  open bcd use {bcd2bin, bin2bcd}

  -- A plain field, one that the chip counts from 1, and the year.
  plain_field :
      (v m : ℕ)
      → v < 100
      → v / 10 * 16 + v % 10 < m
      → m ≤ 256
      → ◌≡◌ {A = ℤ} (pos (bcd2bin (bin2bcd (to_unsigned (pos v)) % 256 % m))) (pos v)
  plain_field v m h lt le =
      let same : v % 2 ^ 32 ≡ v = omega arith in rw same (ap pos (digits bcd v m h lt le))

  counted_field :
      (v m : ℕ)
      → v + 1 < 100
      → (v + 1) / 10 * 16 + (v + 1) % 10 < m
      → m ≤ 256
      → minus_one (bcd2bin (bin2bcd (to_unsigned (plus_one (pos v))) % 256 % m)) ≡ pos v
  counted_field v m h lt le =
      let same : (v + 1) % 2 ^ 32 ≡ v + 1 = omega arith in
      rw (same, digits bcd (v + 1) m h lt le, add-one)

  year_field :
      (y : ℕ)
      → 100 ≤ y
      → y < 200
      → ◌≡◌ {A = ℤ}
          (pos (bcd2bin (bin2bcd ((to_unsigned (pos y) + 2 ^ 32 - 100) % 2 ^ 32) % 256) + 100))
          (pos y)
  year_field y low high =
      let same : (y % 2 ^ 32 + 2 ^ 32 - 100) % 2 ^ 32 ≡ y - 100 = omega arith in
      let back = digits bcd (y - 100) 256 (omega arith) (omega arith) (omega arith) in
      let twice : bin2bcd (y - 100) % 256 % 256 ≡ bin2bcd (y - 100) % 256 = omega arith in
      rw same
        (ap pos (ap (λ b. bcd2bin b + 100) (sym twice) ∙ ap (λ n. n + 100) back ∙ omega arith))

module _ (bcd : Bcd) (bus : Smbus) where
  to_info-IsBytes : (t : RtcTime) → IsBytes (to_info bcd bus t)
  unfolding to_info
  to_info-IsBytes t = omega arith

  from_info-to_info :
      (t : Calendar) → InRange t → from_info bcd bus (to_info bcd bus (to_rtc t)) ≡ to_rtc t
  unfolding from_info to_info
  from_info-to_info t h = λ i. record {
    tm_sec = plain_field bcd t.sec 128 (omega arith) (omega arith) (omega arith) i;
    tm_min = plain_field bcd t.min 128 (omega arith) (omega arith) (omega arith) i;
    tm_hour = plain_field bcd t.hour 64 (omega arith) (omega arith) (omega arith) i;
    tm_wday = counted_field bcd t.wday 8 (omega arith) (omega arith) (omega arith) i;
    tm_mday = plain_field bcd t.mday 64 (omega arith) (omega arith) (omega arith) i;
    tm_mon = counted_field bcd t.mon 32 (omega arith) (omega arith) (omega arith) i;
    tm_year = year_field bcd t.year h.year_low h.year_high i;
  }

  -- On a chip that keeps its registers, a time of the years 2000 to 2099 that is set is the time that
  -- is read back, in every field.
  pub get_time-set_time :
      (t : Calendar) (c : bus.Chip)
      → Keeps bus
      → InRange t
      → get_time bcd bus (set_time bcd bus (to_rtc t) c).1 ≡ (pos 0, to_rtc t)
  unfolding get_time set_time
  get_time-set_time t c keeps h =
      ap (λ i. (pos 0, from_info bcd bus i))
        (read-write_info bcd bus keeps (to_info bcd bus (to_rtc t)) c (to_info-IsBytes (to_rtc t)))
      ∙ ap (λ r. (pos 0, r)) (from_info-to_info t h)
