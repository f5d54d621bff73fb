-- ===== src/Lib.antt =====
-- Linux device drivers: scull with its pipe and access-controlled variants, scullc and sculld that vary
-- it, the virtual bus lddbus, the sbull RAM disk, the tiny_tty serial driver, the snull network driver,
-- the usb-skeleton driver and the timing modules jit and jiq.
--
-- The drivers are separate modules that call the kernel and share no state, but for sculld, which
-- registers its driver and its devices with lddbus. Inside scull,
-- scull/main.c keeps the store of a device; scull/access.c puts other open methods before the same
-- read and write methods; scull/pipe.c has a ring buffer of its own and shares only the parameter
-- scull_p_buffer, which the ioctl of scull/main.c sets.
--
-- Common           lists, slices and Boolean tests over the native numbers
-- Kernel           error numbers, outcomes, the allocator's books, and the kernel's answers
-- Scull/Device     scull/main.c: struct scull_dev, scull_trim, scull_follow, the place of a byte
-- Scull/Transfer   scull/main.c: scull_read and scull_write; View is the flat contents
-- Scull/Ioctl      scull/main.c and scull/scull.h: scull_ioctl and its commands
-- Scull/File       scull/main.c: scull_open, scull_release, scull_llseek, the seq_file iterator
-- Scull/History    sequences of calls on one device
-- Scull/Pipe       scull/pipe.c: open, release, read, write, poll
-- Scull/Access     scull/access.c: the four kinds of open, release, set-up and clean-up
-- Scull/Module     scull/main.c and scull/pipe.c: loading and unloading the module
-- Chain            the words that sculld/main.c and scullc/main.c share, and their transfers seen as
--                  those of scull/main.c
-- Sculld           sculld/main.c: open, read, write, llseek, trim, init and cleanup
-- Scullc           scullc/main.c: open, read, write, llseek, trim, ioctl, init, cleanup
-- Bus              lddbus/lddbus.c: match, hotplug, registration, init and exit
-- Usb              usb/usb-skeleton.c: probe, open, release, read, write, disconnect
-- Jit              jit/jit.c: the timer and the tasklet
-- Jiq              jit/jiq.c: the work queue files
-- Sbull            sbull/sbull.c: transfers, requests, media change, ioctl, set-up and exit
-- Tty              tty/tiny_tty.c: ports, timer, modem lines, ioctl, the window of
--                  the proc file, exit
-- Snull            snull/snull.c: packet pools, receive queue, interrupts, poll, transmit
--
-- Pointers: a list of quantum sets is a list, and a null pointer is none; pointers into the pipe's
-- buffer are offsets. A null or wild access, a division by zero and an int that overflows are the
-- outcome oops. Integers keep their wrap-around: size_t and loff_t have 64 bits, int 32 and short 16.
--
-- The kernel is a parameter: which requests for memory it grants, what a new block holds, what a
-- partial user copy leaves in its destination. A blocked call takes the list of its wake-ups, with
-- the device as other processes left it; where the list ends the call still sleeps. Loops recurse on
-- lists or on numbers of the source; only the work items of jiq, which queue themselves again, recurse
-- on a number of runs, of which one more than the bytes of a page is enough. A sleep that a signal may
-- end takes the signal as an argument.
--
-- Not modelled: the text of the /proc and sysfs files, the addition of character devices, the module
-- entry points of sbull, tiny_tty, snull and usb, the waiting loops of jit_fn, the array envp of
-- ldd_hotplug, the bytes that a read delivers before its user copy faults, and hello_world, which
-- prints two lines.
pub mod Common
pub mod Kernel
pub mod Scull
pub mod Sbull
pub mod Tty
pub mod Snull
pub mod Chain
pub mod Sculld
pub mod Scullc
pub mod Usb
pub mod Jit
pub mod Jiq
pub mod Bus
