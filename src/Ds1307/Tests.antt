-- ===== src/Ds1307/Tests.antt =====
-- The theorem about ds1307_rtc.c at work on a chip of plain registers.
use linux_kernel_ldd.Prelude.{ℕ, ◌+◌, ◌*◌, ◌/◌, ◌%◌, ◌≡◌, refl, arith, ◌==◌, if◌then◌else◌, ℤ, pos}
use linux_kernel_ldd.Ds1307.{Bcd, Smbus, get_time, set_time}
use linux_kernel_ldd.Ds1307.Clock.{Calendar, to_rtc, get_time-set_time}

abbrev plain_bcd : Bcd
plain_bcd = record {
  bcd2bin = λ b. b / 16 * 10 + b % 16;
  bin2bcd = λ v. v / 10 * 16 + v % 10;
  bcd2bin_lem = λ b h. refl;
  bin2bcd_lem = λ v h. refl;
}

-- A chip is the value of each register.
abbrev registers : Smbus
registers = record {
  Chip = ℕ → ℕ;
  read_byte_data = λ c r. pos (c r);
  write_byte_data = λ c r v. λ s. if r == s then v % 256 else c s;
}

registers-keep :
    (c : ℕ → ℕ) (r v s : ℕ)
    → ◌≡◌ {A = ℤ}
        (pos (if r == s then v % 256 else c s))
        (if r == s then pos (v % 256) else pos (c s))
registers-keep c r v s = ground arith

-- 31 December 2023, a Sunday, one second before midnight.
abbrev new_year : Calendar
new_year = record { sec = 59; min = 59; hour = 23; wday = 0; mday = 31; mon = 11; year = 123 }

get_time-set_time_example :
    get_time plain_bcd registers (set_time plain_bcd registers (to_rtc new_year) (λ r. 0)).1
    ≡ (pos 0, to_rtc new_year)
get_time-set_time_example =
    get_time-set_time plain_bcd registers new_year (λ r. 0) (record { read_write = registers-keep })
      (record {
        sec_range = omega arith;
        min_range = omega arith;
        hour_range = omega arith;
        wday_range = omega arith;
        mday_range = omega arith;
        mon_range = omega arith;
        year_low = omega arith;
        year_high = omega arith;
      })
