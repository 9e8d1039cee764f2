-- ===== src/Kernel.antt =====
-- What the drivers take from the kernel: error numbers, the resources that set-up code claims and
-- gives back, and the byte FIFO of linux/kfifo.h behind its documented behaviour.
pub mod Errno
pub mod Replay
pub mod Tally
pub mod Lifetime
pub mod Kfifo
pub mod CharDriver
pub mod KfifoDriver
pub mod Moves
