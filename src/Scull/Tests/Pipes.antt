-- ===== src/Scull/Tests/Pipes.antt =====
-- The pipe at concrete rings.
use linux_device_driver.Common.{◌≡◌, inr, refl, true, false, none, some, [], ◌∷◌, arith, List, ℕ}
use linux_device_driver.Kernel.{Holds, ok, oops}
use linux_device_driver.Kernel.Ledger.{Balanced}
use linux_device_driver.Kernel.Samples.{generous, smooth, fresh_mem}
use linux_device_driver.Scull.Pipe.{
  Pipe, Mode, Wake, read_copy, read_count, read_pipe, write_copy, open_pipe, release_pipe,
}
use linux_device_driver.Scull.Pipe.Ring.{IsRing}
use linux_device_driver.Scull.Pipe.Write.{Appended, write_copy-Appended}
use linux_device_driver.Scull.Pipe.Read.{Taken, read_copy-Taken}
use linux_device_driver.Scull.Pipe.Wait.{LeavesFree, read_pipe-LeavesFree}
use linux_device_driver.Scull.Pipe.Open.{open_then_release}
use linux_device_driver.Scull.Tests.Devices.{small_config}

abbrev block : List ℕ
block = 1 ∷ 2 ∷ 3 ∷ 4 ∷ []

-- Bytes 2 and 3 wait.
abbrev straight : Pipe
straight = record {
  buffer = some block;
  end = 4;
  buffersize = 4;
  rp = 1;
  wp = 3;
  nreaders = 1;
  nwriters = 1;
  async = true;
  sem_free = true;
}

straight-IsRing : IsRing straight block
straight-IsRing = record {
  block = refl;
  whole = refl;
  end_is = refl;
  int_sized = omega arith;
  rp_in = omega arith;
  wp_in = omega arith;
}

-- The write pointer went round: byte 4 waits, then byte 1.
abbrev round : Pipe
round = record straight { rp = 3; wp = 1 }

round-IsRing : IsRing round block
round-IsRing = record {
  block = refl;
  whole = refl;
  end_is = refl;
  int_sized = omega arith;
  rp_in = omega arith;
  wp_in = omega arith;
}

abbrev drained : Pipe
drained = record straight { rp = 3 }

abbrev full : Pipe
full = record straight { rp = 0 }

abbrev shut : Pipe
shut = record straight { buffer = none; nreaders = 0; nwriters = 0 }

abbrev polite : Mode
polite = record { reads = true; writes = true; nonblock = true }

abbrev patient : Mode
patient = record polite { nonblock = false }

abbrev woken : Wake
woken = record { signal = false; interrupted = false; pipe = straight }

write_copy-Appended_example :
    Holds
      (Appended generous smooth (7 ∷ 8 ∷ []) straight block straight-IsRing)
      (write_copy generous smooth (7 ∷ 8 ∷ []) straight)
write_copy-Appended_example =
    write_copy-Appended generous smooth (7 ∷ 8 ∷ []) straight block straight-IsRing

read_copy-Taken_example : Holds (Taken smooth 1 round block round-IsRing) (read_copy smooth 1 round)
read_copy-Taken_example =
    read_copy-Taken smooth 1 round block round-IsRing (inr (omega arith, omega arith))

-- The write pointer went round, and three bytes are asked for where one stands before the end.
round_overruns : read_copy smooth 3 round ≡ oops
unfolding read_copy read_count
round_overruns = refl

read_pipe-LeavesFree_example : LeavesFree (read_pipe patient smooth 2 (woken ∷ []) drained)
read_pipe-LeavesFree_example =
    read_pipe-LeavesFree patient smooth 2 (woken ∷ []) drained refl (refl, tt)

open_then_release_example :
    (let o = open_pipe generous small_config patient false shut fresh_mem in
      let r = release_pipe patient false o.1 o.2 in
      (r.0 ≡ ok 0)
      × (r.1.buffer ≡ none)
      × (r.1.nreaders ≡ 0)
      × (r.1.nwriters ≡ 0)
      × Balanced fresh_mem r.2 0 0)
open_then_release_example =
    open_then_release generous small_config patient false shut fresh_mem refl refl refl refl
