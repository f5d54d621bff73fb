-- ===== src/Tty.antt =====
-- The tiny serial driver, tty/tiny_tty.c. `tiny_table` is a list of four entries; a port's timer is
-- a block of its own. The kernel's flags are read as Booleans, one for each flag the code tests.
pub mod Proc
pub mod Ports
pub mod Lines
pub mod Waiting
mod Tests
use linux_device_driver.Common.{
  ℕ, zero, suc, ◌+◌, ◌-◌, ◌*◌, ◌/◌, ◌%◌, ◌^◌, Bool, true, false, Option, none, some, List, [], ◌∷◌,
  ◌++◌, not, ◌&&◌, ◌||◌, if◌then◌else◌, ltb, leb, ◌==◌, length, get_elem?, set,
}
use linux_device_driver.Kernel.{
  Errno, enomem, enodev, einval, efault, eio, erestartsys, enoioctlcmd, Ret, ok, err, Outcome, done,
  oops, ◌>>=◌, Kernel, Mem, kmalloc, kfree, deref,
}

-- `struct async_icount`.
pub record Icount : Type 0 where
  pub cts : ℕ
  pub dsr : ℕ
  pub rng : ℕ
  pub dcd : ℕ
  pub rx : ℕ
  pub tx : ℕ
  pub frame : ℕ
  pub overrun : ℕ
  pub parity : ℕ
  pub brk : ℕ
  pub buf_overrun : ℕ

-- The fields of `struct serial_struct` that the driver copies.
pub record Serial : Type 0 where
  pub ty : ℕ
  pub line : ℕ
  pub port : ℕ
  pub irq : ℕ
  pub xmit_fifo_size : ℕ
  pub baud_base : ℕ
  pub custom_divisor : ℕ
  pub hub6 : ℕ
  pub io_type : ℕ

-- `struct tiny_serial`: `timer` says whether the pointer is set, `pending` whether that timer runs.
pub record Tiny : Type 0 where
  pub open_count : ℕ
  pub timer : Bool
  pub pending : Bool
  pub msr : ℕ
  pub mcr : ℕ
  pub serial : Serial
  pub icount : Icount

-- The part of `tiny_open` under the semaphore.
unfoldable pub open_port : Kernel → Tiny → Mem → Ret × Tiny × Mem
open_port k t m =
    let t' = record t { open_count = (t.open_count + 1) % 2 ^ 32 } in
    if not (t'.open_count == 1)
    then (ok 0, t', m)
    else if t'.timer
    then (ok 0, record t' { pending = true }, m)
    else let (granted, m') = kmalloc k m in
      if granted
      then (ok 0, record t' { timer = true; pending = true }, m')
      else (err enomem, t', m')

-- `tiny_open`; `junk` is what the new block holds before the three fields are set. The second
-- component says whether `driver_data` of the terminal is set.
unfoldable pub tiny_open :
    Kernel → Tiny → ℕ → List (Option Tiny) → Mem → Outcome (Ret × Bool × List (Option Tiny) × Mem)
tiny_open k junk index table m = elim (get_elem? table index) [
  | none ↦ oops
  | some (some t) ↦
      let (r, t', m') = open_port k t m in done (r, true, set table index (some t'), m')
  | some none ↦
      let (granted, m') = kmalloc k m in
      let (r, t', m'') =
        open_port k (record junk { open_count = 0; timer = false; pending = false }) m' in
      if granted
      then done (r, true, set table index (some t'), m'')
      else done (err enomem, false, table, m')
]

-- `del_timer` of a null pointer is undefined.
unfoldable pub del_timer : Tiny → Outcome Tiny
del_timer t = if t.timer then done (record t { pending = false }) else oops

-- `do_close`; an `int` is not positive when its 32 bits are 0 or have the sign.
unfoldable pub do_close : Tiny → Outcome Tiny
do_close t =
    if t.open_count == 0
    then done t
    else let t' = record t { open_count = (t.open_count + (2 ^ 32 - 1)) % 2 ^ 32 } in
      if (t'.open_count == 0) || leb (2 ^ 31) t'.open_count then del_timer t' else done t'

-- `tiny_timer`: it pushes the flip buffer when it is full, inserts one character, pushes, and runs
-- again.
pub data Flip : Type 0 where
  push : Flip
  insert : ℕ → Flip

unfoldable pub tick : Bool → Tiny → List Flip × Tiny
tick full t =
    ((if full then push ∷ [] else []) ++ insert b't' ∷ push ∷ [], record t { pending = true })

-- `tiny_write` and `tiny_write_room`; `driver_data` may be null.
unfoldable pub tiny_write : Option Tiny → List ℕ → Ret × List ℕ
tiny_write none buffer = (err enodev, [])
tiny_write (some t) buffer = if t.open_count == 0 then (err einval, []) else (err einval, buffer)

unfoldable pub write_room : Option Tiny → Ret
write_room none = err enodev
write_room (some t) = if t.open_count == 0 then err einval else ok 225

-- The test and the change of one bit of a register; `mask` is a power of two.
abbrev pub bit : ℕ → ℕ → Bool
bit mask w = not ((w / mask) % 2 == 0)

abbrev pub set_bit : ℕ → ℕ → ℕ
set_bit mask w = if bit mask w then w else w + mask

abbrev pub clear_bit : ℕ → ℕ → ℕ
clear_bit mask w = if bit mask w then w - mask else w

-- The modem lines that `tiny_tiocmget` reports, and those that `tiny_tiocmset` looks at.
pub record Modem : Type 0 where
  pub dtr : Bool
  pub rts : Bool
  pub loopback : Bool
  pub cts : Bool
  pub car : Bool
  pub ri : Bool
  pub dsr : Bool

unfoldable pub tiocmget : Tiny → Modem
tiocmget t = record {
  dtr = bit 1 t.mcr;
  rts = bit 2 t.mcr;
  loopback = bit 4 t.mcr;
  cts = bit 8 t.msr;
  car = bit 16 t.msr;
  ri = bit 32 t.msr;
  dsr = bit 64 t.msr;
}

unfoldable pub tiocmset : (set_lines clear : Modem) → Tiny → Ret × Tiny
tiocmset set_lines clear t =
    let a = if set_lines.rts then set_bit 2 t.mcr else t.mcr in
    let b = if set_lines.dtr then set_bit 2 a else a in
    let c = if clear.rts then clear_bit 2 b else b in
    let d = if clear.dtr then clear_bit 2 c else c in (ok 0, record t { mcr = d })

-- Which counters a caller of TIOCMIWAIT waits for.
pub record Wanted : Type 0 where
  pub rng : Bool
  pub dsr : Bool
  pub cd : Bool
  pub cts : Bool

-- A wake-up: whether a signal is pending, and the counters then.
pub record Wake : Type 0 where
  pub signal : Bool
  pub now : Icount

unfoldable pub unchanged : Icount → Icount → Bool
unchanged now prev =
    (now.rng == prev.rng) && (now.dsr == prev.dsr) && (now.dcd == prev.dcd) && (now.cts == prev.cts)

unfoldable pub wanted_change : Wanted → Icount → Icount → Bool
wanted_change w now prev =
    (w.rng && not (now.rng == prev.rng))
    || (w.dsr && not (now.dsr == prev.dsr))
    || (w.cd && not (now.dcd == prev.dcd))
    || (w.cts && not (now.cts == prev.cts))

-- `tiny_ioctl_tiocmiwait`: absent while the caller still sleeps.
unfoldable pub miwait : Wanted → List Wake → Icount → Option Ret
miwait w [] prev = none
miwait w (k ∷ ks) prev =
    let rest = miwait w ks k.now in
    if k.signal
    then some (err erestartsys)
    else if unchanged k.now prev
    then some (err eio)
    else if wanted_change w k.now prev
    then some (ok 0)
    else rest

pub data Cmd : Type 0 where
  tiocgserial tiocgicount other_cmd : Cmd
  tiocmiwait : Wanted → List Wake → Cmd

pub data Copied : Type 0 where
  nothing : Copied
  serial_copy : Serial → Copied
  icount_copy : Icount → Copied

-- `tiny_ioctl`; `left` is what `copy_to_user` leaves uncopied, and `arg_null` whether the pointer
-- is null.
unfoldable pub tiny_ioctl : Cmd → Bool → ℕ → Tiny → Option Ret × Copied
tiny_ioctl tiocgserial arg_null left t =
    if arg_null
    then (some (err efault), nothing)
    else if left == 0
    then (some (ok 0), serial_copy t.serial)
    else (some (err efault), nothing)
tiny_ioctl tiocgicount arg_null left t =
    if left == 0 then (some (ok 0), icount_copy t.icount) else (some (err efault), nothing)
tiny_ioctl (tiocmiwait w ks) arg_null left t = (miwait w ks t.icount, nothing)
tiny_ioctl other_cmd arg_null left t = (some (err enoioctlcmd), nothing)

-- `while (tiny->open_count) do_close(tiny)`, which its count bounds.
unfoldable pub close_all : ℕ → Tiny → Outcome Tiny
close_all zero t = done t
close_all (suc n) t = do t' ← do_close t; close_all n t'

-- The loop of `tiny_exit` over the table; `kfree` of the timer, then of the port.
unfoldable pub tiny_exit : List (Option Tiny) → Mem → Outcome (List (Option Tiny) × Mem)
tiny_exit [] m = done ([], m)
tiny_exit (none ∷ ts) m = do rest ← tiny_exit ts m; done (none ∷ rest.0, rest.1)
tiny_exit (some t ∷ ts) m = do
  closed ← close_all t.open_count t
  stopped ← del_timer closed
  rest ← tiny_exit ts (kfree (kfree m))
  done (none ∷ rest.0, rest.1)
