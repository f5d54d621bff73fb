-- ===== src/Scullc/Tests.antt =====
-- The scullc devices at concrete sizes: quanta of 4 bytes and 2 quanta in an item.
use linux_device_driver.Common.{
  ℕ, ◌≡◌, ◌⊎◌, ◌+◌, inl, refl, true, false, none, some, List, [], ◌∷◌, arith,
}
use linux_device_driver.Kernel.{Holds, done, oops, Mem, ok, err, enomem, kmalloc}
use linux_device_driver.Kernel.Ledger.{Refused, Balanced}
use linux_device_driver.Kernel.Samples.{generous, smooth, fresh_mem}
use linux_device_driver.Scull.Device.{IsValid}
use linux_device_driver.Chain.{Store}
use linux_device_driver.Chain.AsScull.{zeroing, as_scull, run_as_scull}
use linux_device_driver.Scullc.{Dev, Config, any_set, write, trim, open_dev}
use linux_device_driver.Scullc.Transfers.{scullc_write-as_scull}
use linux_device_driver.Scullc.Faults.{later_quantum_overruns}
use linux_device_driver.Scullc.Trim.{trim_twice}
use linux_device_driver.Scullc.Module.{Host, fresh, setup_all, scullc_init, scullc_cleanup}
use linux_device_driver.Scull.Ioctl.{Cmd, User, io}
use linux_device_driver.Scullc.Ioctl.{scullc_ioctl}
use linux_device_driver.Scullc.Ioctl.Raise.{told_quantum_overruns}
use linux_device_driver.Scullc.Module.Load.{lost, failed_load}
use linux_device_driver.Scullc.Module.Life.{all_arrays, load_use_unload_leaks}

abbrev text : List ℕ
text = 7 ∷ 8 ∷ 9 ∷ []

abbrev small : Config
small = record { quantum = 4; qset = 2; object = 4 }

-- One quantum in the first item, and an array in the second.
abbrev used_store : Store
used_store = record {
  array = some (some (1 ∷ 2 ∷ 3 ∷ 4 ∷ []) ∷ none ∷ []);
  next = some (none ∷ none ∷ []) ∷ [];
  qset = 2;
  size = 4;
}

abbrev used_dev : Dev
used_dev = record { store = used_store; quantum = 4; stale = none }

used_dev-IsValid : IsValid (as_scull 4 used_store)
used_dev-IsValid = record {
  shaped = ((refl, (refl, (tt, tt))), ((refl, (tt, (tt, tt))), tt));
  some_bytes = omega arith;
  int_sized = omega arith;
}

-- Position 9 is the second byte of the second item.
scullc_write-as_scull_example :
    (run_as_scull 4 (write generous small smooth used_dev fresh_mem 9 text)
      ≡ linux_device_driver.Scull.Transfer.write
          (zeroing generous)
          smooth
          (as_scull 4 used_store)
          fresh_mem
          9
          text)
    ⊎ ((write generous small smooth used_dev fresh_mem 9 text ≡ oops) × Refused generous)
scullc_write-as_scull_example =
    scullc_write-as_scull generous small smooth used_dev fresh_mem 9 text refl refl refl
      (omega arith)

-- Position 6 is the third byte of the second quantum.
later_quantum_overruns_example : write generous small smooth used_dev fresh_mem 6 text ≡ oops
later_quantum_overruns_example =
    later_quantum_overruns generous small smooth used_dev fresh_mem 6 text (λ n. refl) refl refl
      refl used_dev-IsValid refl (omega arith) (omega arith) (omega arith) (omega arith)

trim_twice_example : Holds (λ r. trim small r.0 r.1 ≡ oops) (trim small used_dev fresh_mem)
unfolding any_set
trim_twice_example =
    trim_twice small used_dev fresh_mem (some (1 ∷ 2 ∷ 3 ∷ 4 ∷ []) ∷ none ∷ []) used_dev-IsValid
      refl refl refl refl

abbrev unloaded : Host
unloaded = record { region = false; cache = false; cdevs = 0; mem = fresh_mem }

abbrev loaded : Host
loaded = record {
  region = true;
  cache = true;
  cdevs = 1;
  mem = record { requests = 2; allocs = 2; frees = 0 };
}

load_of_one :
    scullc_init generous none true small 1 unloaded ≡ done (ok 0, fresh small ∷ [], loaded)
unfolding scullc_init setup_all kmalloc
load_of_one = refl

-- Three blocks were handed out for the one device.
abbrev after_use : Mem
after_use = record { requests = 6; allocs = 6; frees = 0 }

load_use_unload_leaks_example :
    Holds
      (λ h2.
        (h2.region ≡ false)
        × (h2.cache ≡ false)
        × (h2.cdevs ≡ 0)
        × Balanced fresh_mem h2.mem 0 (all_arrays (used_dev ∷ []) + lost generous fresh_mem))
      (scullc_cleanup small (used_dev ∷ []) (record loaded { mem = after_use }))
load_use_unload_leaks_example =
    load_use_unload_leaks generous true small 1 unloaded (fresh small ∷ []) (used_dev ∷ []) loaded
      after_use refl load_of_one refl ((used_dev-IsValid, refl), tt) (omega arith)

failed_load_example :
    Holds
      (λ r.
        (r.0 ≡ err enomem)
        × (r.2.region ≡ false)
        × (r.2.cache ≡ false)
        × (r.2.cdevs ≡ 0)
        × Balanced fresh_mem r.2.mem 0 (lost generous fresh_mem))
      (scullc_init generous none false small 3 unloaded)
failed_load_example = failed_load generous false small 3 unloaded refl (inl refl)

-- A number that no other command has.
abbrev reset_cmd : Cmd
reset_cmd = io 0

abbrev visitor : User
visitor = record { capable = false; access_ok = true; word = none; put_ok = true }

told_quantum_overruns_example :
    let a = scullc_ioctl reset_cmd visitor (io 2) 8 small in
    (a.ret ≡ ok 0)
    × Holds
        (λ t. write generous a.config smooth t.1 t.2 0 text ≡ oops)
        (open_dev a.config true false (fresh small) fresh_mem)
told_quantum_overruns_example =
    told_quantum_overruns generous reset_cmd visitor small 8 smooth fresh_mem text (λ n. refl) refl
      (omega arith) (omega arith) (omega arith) refl
