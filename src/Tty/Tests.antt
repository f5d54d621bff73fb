-- ===== src/Tty/Tests.antt =====
-- The serial driver at concrete ports.
use linux_device_driver.Common.{
  ◌*◌, ◌≡◌, refl, true, false, none, some, [], ◌∷◌, arith, List, replicate, length, Option, ℕ, ◌+◌,
  ◌<◌, ◌++◌, take, drop,
}
use linux_device_driver.Kernel.{Holds, kmalloc}
use linux_device_driver.Kernel.Ledger.{Moves}
use linux_device_driver.Kernel.Samples.{exhausted, fresh_mem}
use linux_device_driver.Tty.{Tiny, Icount, tiny_exit}
use linux_device_driver.Tty.Ports.{IsValid, ports, tiny_exit_lem}
use linux_device_driver.Tty.Proc.{print_ports, tiny_read_proc}
use linux_device_driver.Tty.Proc.Window.{text, tiny_read_proc-window}

abbrev still : Icount
still = record {
  cts = 0;
  dsr = 0;
  rng = 0;
  dcd = 0;
  rx = 0;
  tx = 0;
  frame = 0;
  overrun = 0;
  parity = 0;
  brk = 0;
  buf_overrun = 0;
}

abbrev new_port : Tiny
new_port = record {
  open_count = 0;
  timer = false;
  pending = false;
  msr = 8;
  mcr = 1;
  serial = record {
    ty = 0;
    line = 0;
    port = 0;
    irq = 0;
    xmit_fifo_size = 0;
    baud_base = 0;
    custom_divisor = 0;
    hub6 = 0;
    io_type = 0;
  };
  icount = still;
}

abbrev open_twice : Tiny
open_twice = record new_port { open_count = 2; timer = true; pending = true }

open_twice-IsValid : IsValid open_twice
open_twice-IsValid = record {
  few = omega arith;
  armed = refl;
  runs = λ p. refl;
  rests = λ z. absurd (omega (arith, z));
}

refused_request : (kmalloc exhausted fresh_mem).0 ≡ false
unfolding kmalloc
refused_request = refl

abbrev table : List (Option Tiny)
table = some open_twice ∷ none ∷ none ∷ none ∷ []

tiny_exit_lem_example :
    Holds
      (λ r. (r.0 ≡ replicate (length table) none) × Moves fresh_mem r.1 0 (2 * ports table))
      (tiny_exit table fresh_mem)
tiny_exit_lem_example = tiny_exit_lem table fresh_mem (open_twice-IsValid, (tt, (tt, (tt, tt))))

abbrev heading : List ℕ
heading = 100 ∷ 10 ∷ []

abbrev lines_of_ports : List (Option (List ℕ))
lines_of_ports = some (48 ∷ 10 ∷ []) ∷ none ∷ some (50 ∷ 10 ∷ []) ∷ none ∷ []

-- The second byte of port 0 and the first of port 2, after the heading was skipped.
second_window : tiny_read_proc 4096 3 2 heading lines_of_ports ≡ (10 ∷ 50 ∷ [], false)
unfolding tiny_read_proc print_ports
second_window = refl

tiny_read_proc-window_example :
    let (bytes, eof) = tiny_read_proc 4096 3 2 heading lines_of_ports in
    (bytes ≡ take 2 (drop 3 (heading ++ text lines_of_ports)))
    × (eof ≡ false → 3 + 2 < length (heading ++ text lines_of_ports))
tiny_read_proc-window_example = tiny_read_proc-window 4096 3 2 heading lines_of_ports (omega arith)
