-- ===== src/Sculld/Module/Life.antt =====
-- Loading sculld, using its devices and unloading it.
use linux_device_driver.Common.{ℕ, ◌+◌, ◌-◌, ◌≡◌, refl, true, false, none, List, [], ◌∷◌, length}
use linux_device_driver.Kernel.{err, enomem, Kernel, kmalloc}
use linux_device_driver.Kernel.Ledger.{Moves, Balanced}
use linux_device_driver.Scull.Device.{IsValid}
use linux_device_driver.Chain.{held}
use linux_device_driver.Chain.AsScull.{as_scull}
use linux_device_driver.Sculld.{Dev, Config, quantum_of}
use linux_device_driver.Sculld.Module.{Host, sculld_init}

-- The blocks of all devices, with one for each.
abbrev pub total : List Dev → ℕ
total [] = 0
total (dev ∷ devs) = held dev.store + total devs

-- A device that may be taken down: valid, and mapped by nobody.
abbrev pub IsIdle : ℕ → Dev → Type 0
IsIdle page dev = IsValid (as_scull (quantum_of page dev) dev.store) × (dev.vmas ≡ 0)

record SetUp (g : Config) (n : ℕ) (h : Host) (r : List Dev × Host) : Type 0 where
  pub each : length r.0 ≡ n
  pub single : total r.0 ≡ n
  pub cdevs_up : r.1.cdevs ≡ h.cdevs + n
  pub ldevs_up : r.1.ldevs ≡ h.ldevs + n
  pub same_mem : r.1.mem ≡ h.mem

record Loaded (n : ℕ) (h : Host) (devs : List Dev) (h1 : Host) : Type 0 where
  pub each : length devs ≡ n
  pub single : total devs ≡ n
  pub cdevs_up : h1.cdevs ≡ h.cdevs + n
  pub ldevs_up : h1.ldevs ≡ h.ldevs + n
  pub got : Moves h.mem h1.mem 1 0

-- What the loop of the clean-up leaves of the host.
record TakenDown (devs : List Dev) (h h' : Host) : Type 0 where
  pub cdevs_down : h'.cdevs ≡ h.cdevs - length devs
  pub ldevs_down : h'.ldevs ≡ h.ldevs - length devs
  pub freed : Balanced h.mem h'.mem (total devs) (length devs)

-- When no memory is left for the devices, the load fails and gives the device numbers back, but the
-- driver stays registered.
pub failed_load_keeps_driver :
    (k : Kernel) (g : Config) (n : ℕ) (h : Host)
    → k.grants h.mem.requests ≡ false
    → let r = sculld_init k none g n h in
      (r.0 ≡ err enomem) × (r.2.region ≡ false) × (r.2.driver ≡ true)
unfolding sculld_init kmalloc
failed_load_keeps_driver k g n h refused = rw refused (refl, refl, refl)
