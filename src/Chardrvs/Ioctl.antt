-- ===== src/Chardrvs/Ioctl.antt =====
-- chardrvs_ioctl with the command numbers of chardrvs.h. The encoding of a command number is that of
-- the kernel's linux/ioctl.h and stands as a parameter; so do `capable` and user memory.
use linux_kernel_ldd.Prelude.{
  ℕ, ◌+◌, ◌*◌, ◌/◌, ◌%◌, ◌^◌, ◌<◌, ◌≡◌, ◌≢◌, ◌⊎◌, Bool, true, false, not, Option, none, some, ℤ,
  pos, if◌then◌else◌, ltb, ◌==◌, arith,
}
use linux_kernel_ldd.Kernel.Errno.{enotty, eperm, efault, emfile}
use linux_kernel_ldd.Chardrvs.{Dev, word, open_dev}

-- `_IOC_TYPE`, `_IOC_NR`, `_IOW` and `_IOR`; the last two take the type, the number and the size.
pub record Ioc : Type 0 where
  pub ioc_type : ℕ → ℕ
  pub ioc_nr : ℕ → ℕ
  pub iow : ℕ → ℕ → ℕ → ℕ
  pub ior : ℕ → ℕ → ℕ → ℕ
  pub type_iow : (t n s : ℕ) → t < 256 → n < 256 → ioc_type (iow t n s) ≡ t
  pub type_ior : (t n s : ℕ) → t < 256 → n < 256 → ioc_type (ior t n s) ≡ t
  pub nr_iow : (t n s : ℕ) → t < 256 → n < 256 → ioc_nr (iow t n s) ≡ n
  pub nr_ior : (t n s : ℕ) → t < 256 → n < 256 → ioc_nr (ior t n s) ≡ n

-- What the caller's pointer leads to: the `unsigned long` that can be read there, if it can be, and
-- whether one can be written.
pub record UserLong : Type 0 where
  pub value : Option ℕ
  pub writable : Bool

-- The result, the device, and the number stored through the caller's pointer.
pub record IoctlResult (F : Type 0) : Type 0 where
  pub ret : ℤ
  pub dev : Dev F
  pub stored : Option ℕ

abbrev pub chardrvs_ioc_magic : ℕ
chardrvs_ioc_magic = b'c'

abbrev pub chardrvs_ioc_max_nr : ℕ
chardrvs_ioc_max_nr = 3

-- `sizeof(int *)`.
abbrev pub pointer_size : ℕ
pointer_size = 8

module _ (ioc : Ioc) where
  open ioc use {ioc_type, ioc_nr, iow, ior}

  abbrev pub chardrvs_iocsetnrusers : ℕ
  chardrvs_iocsetnrusers = iow chardrvs_ioc_magic 1 pointer_size

  abbrev pub chardrvs_iocgetnrusers : ℕ
  chardrvs_iocgetnrusers = ior chardrvs_ioc_magic 2 pointer_size

  abbrev pub chardrvs_iocqueryavailsize : ℕ
  chardrvs_iocqueryavailsize = ior chardrvs_ioc_magic 3 pointer_size

  module _ {F : Type 0} where
    -- A result that leaves the device alone and stores nothing.
    abbrev fails : ℤ → Dev F → IoctlResult F
    fails e d = record { ret = e; dev = d; stored = none }

    -- `__get_user(dev->usrs_cnt, arg)`: a fault sets the variable to 0.
    abbrev get_user_cnt : Option ℕ → Dev F → IoctlResult F
    get_user_cnt none d = fails efault (record d { usrs_cnt = 0 })
    get_user_cnt (some v) d = fails (pos 0) (record d { usrs_cnt = word v })

    -- `__put_user(v, arg)`.
    abbrev put_user : Bool → ℕ → Dev F → IoctlResult F
    put_user true v d = record { ret = pos 0; dev = d; stored = some v }
    put_user false v d = fails efault d

    -- The `switch` of `chardrvs_ioctl`.
    pub switch_cmd : Bool → ℕ → UserLong → Dev F → IoctlResult F
    switch_cmd capable cmd arg d =
        if cmd == chardrvs_iocsetnrusers
        then (if not capable then fails eperm d else get_user_cnt arg.value d)
        else if cmd == chardrvs_iocgetnrusers
        then (if not capable then fails eperm d else put_user arg.writable d.usrs_cnt d)
        else if cmd == chardrvs_iocqueryavailsize
        then put_user arg.writable d.avail d
        else fails enotty d

    -- `chardrvs_ioctl`; `capable` is `capable(CAP_SYS_ADMIN)`.
    unfoldable pub ioctl : Bool → ℕ → UserLong → Dev F → IoctlResult F
    unfolding switch_cmd
    ioctl capable cmd arg d =
        if not (ioc_type cmd == chardrvs_ioc_magic)
        then fails enotty d
        else if ltb chardrvs_ioc_max_nr (ioc_nr cmd)
        then fails enotty d
        else switch_cmd capable cmd arg d

    -- A caller without CAP_SYS_ADMIN changes nothing of the device, whatever the command, and learns
    -- nothing but the room.
    pub ioctl_unprivileged :
        (cmd : ℕ) (arg : UserLong) (d : Dev F)
        → let r = ioctl false cmd arg d in
          (r.dev ≡ d) × ((r.stored ≡ none) ⊎ (r.stored ≡ some d.avail))
    unfolding ioctl
    ioctl_unprivileged cmd arg d = ground arith

    -- A command that is none of the three gives -ENOTTY and changes nothing.
    pub ioctl_unknown :
        (capable : Bool) (cmd : ℕ) (arg : UserLong) (d : Dev F)
        → cmd ≢ chardrvs_iocsetnrusers
        → cmd ≢ chardrvs_iocgetnrusers
        → cmd ≢ chardrvs_iocqueryavailsize
        → ioctl capable cmd arg d ≡ record { ret = enotty; dev = d; stored = none }
    unfolding ioctl
    ioctl_unknown capable cmd arg d a b c = ground arith

    -- Through pointers that can be read and written, what an administrator sets is what an
    -- administrator reads back, cut to 32 bits; reading changes nothing.
    pub ioctl_set_get :
        (v : ℕ) (arg arg' : UserLong) (d : Dev F)
        → arg.value ≡ some v
        → arg'.writable ≡ true
        → let set = ioctl true chardrvs_iocsetnrusers arg d in
          let get = ioctl true chardrvs_iocgetnrusers arg' set.dev in
          (set.ret ≡ pos 0) × (get.ret ≡ pos 0) × (get.stored ≡ some (word v)) × (get.dev ≡ set.dev)
    unfolding ioctl
    ioctl_set_get v arg arg' d e w = ground (
      arith,
      ioc.type_iow b'c' 1 8,
      ioc.nr_iow b'c' 1 8,
      ioc.type_ior b'c' 2 8,
      ioc.nr_ior b'c' 2 8,
    )

    -- A set-up of the limit from an unreadable pointer fails, and yet leaves the limit 0: no open
    -- succeeds after it.
    pub ioctl_set_fault :
        (arg : UserLong) (d : Dev F)
        → arg.value ≡ none
        → let set = ioctl true chardrvs_iocsetnrusers arg d in
          (set.ret ≡ efault) × (open_dev set.dev ≡ (emfile, set.dev))
    unfolding ioctl open_dev
    ioctl_set_fault arg d e = ground (arith, ioc.type_iow b'c' 1 8, ioc.nr_iow b'c' 1 8)

-- The generic encoding: direction, size, type and number in 2, 14, 8 and 8 bits.
abbrev pub generic_cmd : ℕ → ℕ → ℕ → ℕ → ℕ
generic_cmd dir t n s = dir * 2 ^ 30 + s * 2 ^ 16 + t * 256 + n

pub generic_type : (dir t n s : ℕ) → t < 256 → n < 256 → generic_cmd dir t n s / 256 % 256 ≡ t
generic_type dir t n s ht hn = omega arith

pub generic_nr : (dir t n s : ℕ) → t < 256 → n < 256 → generic_cmd dir t n s % 256 ≡ n
generic_nr dir t n s ht hn = omega arith

abbrev pub generic_ioc : Ioc
generic_ioc = record {
  ioc_type = λ c. c / 256 % 256;
  ioc_nr = λ c. c % 256;
  iow = generic_cmd 1;
  ior = generic_cmd 2;
  type_iow = generic_type 1;
  type_ior = generic_type 2;
  nr_iow = generic_nr 1;
  nr_ior = generic_nr 2;
}
