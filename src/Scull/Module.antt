-- ===== src/Scull/Module.antt =====
-- Loading and unloading the scull module: `scull_init_module` and `scull_cleanup_module` of
-- scull/main.c, with `scull_p_init` and `scull_p_cleanup` of scull/pipe.c. Failures to add a
-- character device are only printed, and are left out.
pub mod Unload
pub mod Load
use linux_device_driver.Common.{
  ℕ, zero, suc, Bool, true, false, Option, none, some, List, [], ◌∷◌, if◌then◌else◌, not, replicate,
}
use linux_device_driver.Kernel.{
  Errno, enomem, Ret, ok, err, Outcome, done, ◌>>=◌, Kernel, Mem, kmalloc, kfree, kfree?,
}
use linux_device_driver.Scull.Device.{Dev, Config, trim}
use linux_device_driver.Scull.Pipe.{Pipe}
use linux_device_driver.Scull.Access.{Statics, ListItem, access_init, access_cleanup}

-- What the module keeps: `scull_devices` and `scull_p_devices`, which may be null, the
-- access-controlled devices, the device numbers of scull, of scullpipe and of the access-controlled
-- devices, and whether the character devices of the last were set up.
pub record Module : Type 0 where
  pub devices : Option (List Dev)
  pub pipes : Option (List Pipe)
  pub statics : Statics
  pub clones : List ListItem
  pub region : Bool
  pub p_region : Bool
  pub a_region : Bool
  pub a_cdevs : Bool
  pub mem : Mem

-- A device or a pipe after the `memset`.
abbrev pub new_dev : Config → Dev
new_dev g = record { items = []; quantum = g.quantum; qset = g.qset; size = 0; access_key = 0 }

abbrev pub new_pipe : Pipe
new_pipe = record {
  buffer = none;
  end = 0;
  buffersize = 0;
  rp = 0;
  wp = 0;
  nreaders = 0;
  nwriters = 0;
  async = false;
  sem_free = true;
}

-- `scull_p_init`; `registered` is whether the device numbers are free.
unfoldable pub p_init : Kernel → (registered : Bool) (nr_devs : ℕ) → Module → ℕ × Module
p_init k registered nr_devs h =
    let (granted, m) = kmalloc k h.mem in
    if not registered
    then (0, h)
    else if granted
    then (nr_devs, record h { pipes = some (replicate nr_devs new_pipe); p_region = true; mem = m })
    else (0, record h { mem = m })

-- The loop of `scull_p_cleanup`.
unfoldable pub free_pipes : List Pipe → Mem → Mem
free_pipes [] m = m
free_pipes (p ∷ ps) m = free_pipes ps (kfree? p.buffer m)

unfoldable pub p_cleanup : Module → Module
p_cleanup h = elim h.pipes [
  | none ↦ h
  | some ps ↦ record h { pipes = none; p_region = false; mem = kfree (free_pipes ps h.mem) }
]

-- The loop of `scull_cleanup_module`.
unfoldable pub trim_all : Config → List Dev → Mem → Outcome Mem
trim_all g [] m = done m
trim_all g (d ∷ ds) m = do t ← trim g d m; trim_all g ds t.1

unfoldable pub cleanup_module : Config → Module → Outcome Module
cleanup_module g h = do
  m ← elim h.devices [ none ↦ done h.mem | some ds ↦ do m' ← trim_all g ds h.mem; done (kfree m') ]
  let h' = p_cleanup (record h { region = false; mem = m })
  a ← access_cleanup g h'.a_cdevs h'.statics h'.clones h'.mem
  done (record h' { a_region = a.0; a_cdevs = false; statics = a.1; clones = []; mem = a.2 })

-- `scull_init_module`: `region_error` is what the request for device numbers answers, and
-- `p_registered` and `a_registered` whether those of the pipes and of the access-controlled devices
-- are free.
unfoldable pub init_module :
    Kernel
    → Config
    → (region_error : Option Errno) (p_registered a_registered : Bool) (nr_devs p_nr_devs : ℕ)
    → Module
    → Outcome (Ret × Module)
init_module k g (some e) p_registered a_registered nr_devs p_nr_devs h = done (err e, h)
init_module k g none p_registered a_registered nr_devs p_nr_devs h =
    let (granted, m) = kmalloc k h.mem in
    let h1 = record h { region = true; mem = m } in
    let devs = replicate nr_devs (new_dev g) in
    let h2 = (p_init k p_registered p_nr_devs (record h1 { devices = some devs })).1 in
    let failing = (do h' ← cleanup_module g h1; done (err enomem, h')) in
    if granted
    then done (
      ok 0,
      record h2 {
        statics = (access_init g a_registered h2.statics).1;
        a_region = a_registered;
        a_cdevs = a_registered;
      },
    )
    else failing
