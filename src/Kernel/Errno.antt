-- ===== src/Kernel/Errno.antt =====
-- The error numbers of asm-generic/errno-base.h and linux/errno.h that the drivers return, as the
-- negative integers that they return.
use linux_kernel_ldd.Prelude.{ℤ, negsuc}

-- -EPERM
abbrev pub eperm : ℤ
eperm = negsuc 0

-- -EIO
abbrev pub eio : ℤ
eio = negsuc 4

-- -ENOMEM
abbrev pub enomem : ℤ
enomem = negsuc 11

-- -EFAULT
abbrev pub efault : ℤ
efault = negsuc 13

-- -ENODEV
abbrev pub enodev : ℤ
enodev = negsuc 18

-- -EINVAL
abbrev pub einval : ℤ
einval = negsuc 21

-- -EMFILE
abbrev pub emfile : ℤ
emfile = negsuc 23

-- -ENOTTY
abbrev pub enotty : ℤ
enotty = negsuc 24

-- -ERESTARTSYS
abbrev pub erestartsys : ℤ
erestartsys = negsuc 511
