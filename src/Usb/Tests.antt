-- ===== src/Usb/Tests.antt =====
-- The USB driver at concrete devices and requests.
use linux_device_driver.Common.{
  ◌≡◌, ◌⊎◌, refl, sym, true, false, none, some, [], ◌∷◌, arith, List, ◌<◌,
}
use linux_device_driver.Kernel.{Ret, kmalloc, ok, Holds, done, oops}
use linux_device_driver.Kernel.Ledger.{Balanced}
use linux_device_driver.Kernel.Samples.{generous, fresh_mem}
use linux_device_driver.Kernel.Clash.{true-ne-false}
use linux_device_driver.Usb.{
  get_ref, put_ref, World, Endpoint, Luck, Held, skel_probe, scan, take_out, skel_open,
  skel_release, skel_disconnect, skel_write,
}
use linux_device_driver.Usb.Probe.{ProbeEnds, skel_probe_lem}
use linux_device_driver.Usb.Life.{State, Reach, here, next, opened, disconnected}
use linux_device_driver.Usb.Unplug.{probed_life}
use linux_device_driver.Usb.Write.{failed_write}

-- No device is bound.
abbrev idle : World
idle = record { dev = none; intfdata = false; minor = false; udev_refs = 0; mem = fresh_mem }

abbrev bulk_endpoints : List Endpoint
bulk_endpoints =
    record { addr = 129; attributes = 2; max_packet = 64 }
    ∷ record { addr = 2; attributes = 2; max_packet = 64 }
    ∷ []

skel_probe_lem_example : Holds (ProbeEnds idle) (skel_probe generous bulk_endpoints none idle)
skel_probe_lem_example = skel_probe_lem generous bulk_endpoints none idle refl

-- The device that this probe leaves.
abbrev probed : World
probed = record {
  dev =
      some (record {
        bulk_in_buffer = true;
        bulk_in_size = 64;
        bulk_in = 129;
        bulk_out = 2;
        kref = 1;
      });
  intfdata = true;
  minor = true;
  udev_refs = 1;
  mem = record { requests = 2; allocs = 2; frees = 0 };
}

probe_run : skel_probe generous bulk_endpoints none idle ≡ done (ok 0, probed)
unfolding skel_probe kmalloc scan take_out
probe_run = refl

-- Opened once and then unplugged: the structure stays for the open file, with one reference.
abbrev opened_world : World
opened_world = record probed {
  dev =
      some (record {
        bulk_in_buffer = true;
        bulk_in_size = 64;
        bulk_in = 129;
        bulk_out = 2;
        kref = 2;
      });
}

abbrev unplugged_world : World
unplugged_world = record opened_world {
  dev =
      some (record {
        bulk_in_buffer = true;
        bulk_in_size = 64;
        bulk_in = 129;
        bulk_out = 2;
        kref = 1;
      });
  intfdata = false;
  minor = false;
}

open_run : skel_open probed ≡ done (ok 0, opened_world)
unfolding skel_open get_ref
open_run = refl

disconnect_run : skel_disconnect opened_world ≡ done unplugged_world
unfolding skel_disconnect put_ref
disconnect_run = refl

abbrev first_state : State
first_state = record { world = probed; files = 0 }

abbrev last_state : State
last_state = record { world = unplugged_world; files = 1 }

unplug_history : Reach first_state last_state
unplug_history =
    next (next here (opened opened_world (omega arith) open_run))
      (disconnected unplugged_world refl disconnect_run)

probed_life_example :
    ((r : Ret × World) × (skel_open unplugged_world ≡ done r))
    × (0 < last_state.files → (r : Ret × World) × (skel_release unplugged_world ≡ done r))
    × (unplugged_world.intfdata ≡ true → (w : World) × (skel_disconnect unplugged_world ≡ done w))
    × (last_state.files ≡ 0
        → unplugged_world.intfdata ≡ false
        → (unplugged_world.dev ≡ none)
          × Balanced fresh_mem unplugged_world.mem 0 0
          × (unplugged_world.udev_refs ≡ 0))
probed_life_example =
    probed_life idle first_state last_state
      (record {
        skel = record {
          bulk_in_buffer = true;
          bulk_in_size = 64;
          bulk_in = 129;
          bulk_out = 2;
          kref = 1;
        };
        there = refl;
        one_ref = refl;
        has_in = λ e. absurd (omega (arith, e));
        has_out = λ e. absurd (omega (arith, e));
        has_buffer = refl;
        reachable = (refl, refl);
        got = omega arith;
        got_udev = refl;
      })
      refl unplug_history

abbrev lucky : Luck
lucky = record {
  urb_ok = true;
  buffer_ok = true;
  copy_ok = true;
  submit_error = none;
  null_ok = true;
}

abbrev nothing_held : Held
nothing_held = record { urbs = 0; buffers = 0; submitted = 0 }

abbrev short_of_memory : Luck
short_of_memory = record lucky { buffer_ok = false }

failed_write_example :
    (skel_write short_of_memory 5 nothing_held ≡ oops)
    ⊎ ((false ≡ false) × (skel_write short_of_memory 5 nothing_held ≡ done (ok 12, nothing_held)))
failed_write_example =
    failed_write short_of_memory 5 nothing_held (omega arith) (λ l. true-ne-false (sym l.buffer))
