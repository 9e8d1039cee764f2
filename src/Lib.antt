-- ===== src/Lib.antt =====
-- A verification library for the drivers of linux-device-drivers/ and for the program of
-- kvm/host-kvm-example/.
--
-- The program is a collection of Linux drivers, each a module of its own. A driver has handlers
-- that the kernel calls, and a set-up and a tear-down. What all of them use stands in two modules
-- here:
--   Prelude: names of the libraries, tests, lists and signed integers over the native numbers.
--   Kernel: what the drivers call and this repository does not hold. Kernel/Kfifo is the FIFO of
--     linux/kfifo.h, a record of functions with their documented behaviour and one instance of it.
--     Kernel/Replay is the bookkeeping of kernel objects: a routine has a log of what it claims
--     and gives back, and a log faults where it gives back what is not held; Kernel/Tally has logs
--     against the same objects in another order. Kernel/Lifetime is the interface of a driver to
--     the bus that probes it, with the laws that its load, its devices, which come and go in any
--     order, and its unload rest on. Kernel/CharDriver is the interface of a driver of character
--     devices to the open files of its devices, which the three versions of the platform driver
--     fill, and Kernel/KfifoDriver adds that its reads and writes are those of kernelnewbies.c,
--     as theirs are. Kernel/Moves has what the FIFO does with good buffers, Kernel/Errno the errors.
--
-- Parts, with the files under linux-device-drivers/ that they are about:
--   Kernelnewbies: 01.kernelnewbies/kernelnewbies.c. Bytes has the reads and writes, Echo a first
--     message, Pipe histories as a pipe, Setup what `kernelnewbies_init` and `kernelnewbies_exit`
--     hold.
--   Chardrvs: 02.chardrvs/chardrvs.c and chardrvs.h. Write has single calls, System histories of
--     calls with a writer that may sleep, Queue these histories as a bounded queue, Users the limit
--     on open files and Opens the count with opens and releases that overlap, Threads reads and
--     writes as the steps of any number of threads in any order (Exclusion, Conserve, Rooms, Owners
--     and Progress what then holds, Alone a thread that no other one interrupts, Races and Lost what
--     goes wrong), Ioctl the commands, Setup `chardrvs_init` and `chardrvs_clean`. AppTest is the
--     program app-test.c over the driver.
--   Mcdevdrvs: 03.mcdevdrvs/mcdevdrvs.c, over the handlers of Kernelnewbies, whose code it
--     repeats for each minor number. Minors has the histories, Pipes the two devices as two pipes,
--     Setup the loops of the set-up.
--   Pltdrv: 12.pltdrv_attr_dt/pltdrv_attr_dt.c. Probe has probe and remove, Lifetime the driver
--     from load to unload with any devices, Numbers the numbers that devices get, Fops the file
--     operations as an instance of Kernel/CharDriver, and Files the open files of any such driver
--     while devices come and go, in which a probe and a remove are cut into the steps between
--     which a call on a file can come (Steps and Shared single calls, Live and Safe the memory
--     that they use, First a new device, Apart and Histories each device as if alone, Pipes each
--     as a pipe).
--   PltdrvPlain and PltdrvAttr: the earlier versions 07.pltdrv/pltdrv.c and
--     08.pltdrv_attr/pltdrv_attr.c. Probe has their probe and remove, Lifetime them from load to
--     unload, Fops their file operations, PltdrvPlain/Echo a message through a new device, and
--     PltdrvAttr/Versions compares the probes of the three versions.
--   PltdevsLoad: 06.pltdevs_load/pltdevs_load.c, the devices for these drivers. Pipes has them bound
--     by 07.pltdrv and used through their files.
--   Gpiopulse: 14.gpio_pulse/pltdrv_gpiopulse.c. Wave has the pin over time, Probe what a probe
--     holds.
--   Virtbus: 09.virtbus/virtbus.c. Match has the matching by name, Setup the set-up and
--     tear-down.
--   VirtbusLoad: 10.virtbusdevs_load/virtbusdevs_load.c, the devices for this bus.
--   Jiq: 05.workqueues/jiq.c. Page has the end of the printing, Reader a reader by itself, which
--     sleeps meanwhile, Shared any number of readers of all four files on the data and the wait
--     queue that they share, with any order of reads, runs and signals, and with the store of `len`
--     as a step of its own (Awaited the pending work
--     of sleeping readers, Returns which readers return, Strays lines in the pages of readers that
--     have returned, Pages whose page is printed into), Setup the files in /proc, Procs their
--     names while this module and jit.c, which share one, are loaded and unloaded.
--   Jit: 04.time/jit.c. Delay has the delays by the clock, Loops the timer and the tasklet that
--     schedule themselves, Readers the readers that wait for them, Currentime the time of day,
--     Files which function shows which file.
--   Ds1307: 15.ds1307_smbus_drv/ds1307_rtc.c. Clock has the time set and read back.
--   VirtTty: 16.virt_tty/virt_tty.c. Lines has opens, closes and the timer with the steps of its
--     function, which overlap the handlers, as a step relation, Setup the set-up and tear-down.
--   DummyUsbTtl: 17.dummy-usb-ttl-drv/dummy_usb_ttl_drv.c.
--   Cp2102: 18.usb-ttl-cp2102/cp2102if.c, and Cp2102/Port usb_ttl_cp2102.c over it, with the
--     modem lines in Modem and the rest in Line.
--   PciEmu and PciDrv: 19.Qemu-pci-dev-creation/pci_dev_emu.c and 20.pci-driver/pci_drv.c. The
--     driver's attributes are stated over any device with two words (PciDrv/Bars), and the
--     emulated device is one. PciEmu/Driven has the driver on the emulated device.
--   Ramdisk: 21.ramdisk_blkdev/ramdisk_blk.c. Segments lays segments into the memory and takes
--     them out of it, Requests has the reads and writes, Clipping the writes and Filling the reads
--     over the end of the device, Disk the device as a flat array for any sequence of requests,
--     Cuts the writes up to the cut of their bytes into segments, Setup the set-up and tear-down,
--     Opens the block device that an open keeps for the tear-down.
--   Kvm: kvm/host-kvm-example/host_kvm_simple.c. Loop has its loops, Files what `main` closes.
-- The module Tests of a part holds its examples.
--
-- Conventions: a handler is a function from the device to the device and what the caller gets,
-- named for the C function without the driver's name. A mutex is whether it is held; a handler
-- that waits gives an outcome of its own, and waits again when it is called again. A set-up is a
-- function of the answers that the kernel gives to its calls, and its error labels are functions
-- that fall through to one another. Unsigned numbers wrap where the code can make them wrap.
--
-- Bounds and fuel: the closing loop of virt_tty.c is on fuel, the number of opens, which
-- `open_count-close_all` of VirtTty/Lines shows to be enough. The run loop of host_kvm_simple.c has no
-- bound and is a function of the runs that the machine makes, the waits of jit.c are functions of
-- the times at which they look. All other loops recur on their data.
--
-- Not modelled: the guest of kvm/, which is assembly; build files, device trees and notes. Of the
-- modelled files the handlers that only print are left out, as are the printed texts and the
-- preemption inside a handler, except in Chardrvs/Threads, Chardrvs/Opens, VirtTty/Lines and
-- where a handler is cut in two, as the start of a reader in Jiq/Shared is.
pub mod Prelude
pub mod Kernel
pub mod Kernelnewbies
pub mod Mcdevdrvs
pub mod Chardrvs
pub mod Pltdrv
pub mod PltdrvPlain
pub mod PltdrvAttr
pub mod PltdevsLoad
pub mod Gpiopulse
pub mod Jiq
pub mod Jit
pub mod Virtbus
pub mod Ds1307
pub mod Cp2102
pub mod PciDrv
pub mod PciEmu
pub mod VirtTty
pub mod Kvm
pub mod Ramdisk
pub mod VirtbusLoad
pub mod DummyUsbTtl
