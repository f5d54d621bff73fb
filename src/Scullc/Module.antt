-- ===== src/Scullc/Module.antt =====
-- `scullc_init` and `scullc_cleanup` of scullc/main.c; the file under /proc is left out.
pub mod Load
pub mod Life
use linux_device_driver.Common.{
  ℕ, zero, suc, ◌+◌, ◌-◌, Bool, true, false, Option, none, some, List, [], ◌∷◌, if◌then◌else◌,
}
use linux_device_driver.Kernel.{
  Errno, Ret, ok, err, enomem, Outcome, done, ◌>>=◌, Kernel, Mem, kmalloc, kfree,
}
use linux_device_driver.Scullc.{Dev, Config, trim}

-- What the module has of the kernel: the device numbers, the cache, and the character devices.
pub record Host : Type 0 where
  pub region : Bool
  pub cache : Bool
  pub cdevs : ℕ
  pub mem : Mem

abbrev pub fresh : Config → Dev
fresh g = record {
  store = record { array = none; next = []; qset = g.qset; size = 0 };
  quantum = g.quantum;
  stale = none;
}

-- The loop that sets the devices up; a failure of `cdev_add` is only printed.
unfoldable pub setup_all : Config → ℕ → Host → List Dev × Host
setup_all g zero h = ([], h)
setup_all g (suc n) h =
    let (devs, h') = setup_all g n (record h { cdevs = h.cdevs + 1 }) in (fresh g ∷ devs, h')

-- The loop that takes the devices down.
unfoldable pub cleanup_all : Config → List Dev → Host → Outcome Host
cleanup_all g [] h = done h
cleanup_all g (dev ∷ devs) h = do
  t ← trim g dev h.mem
  cleanup_all g devs (record h { cdevs = h.cdevs - 1; mem = t.1 })

unfoldable pub scullc_cleanup : Config → List Dev → Host → Outcome Host
scullc_cleanup g devs h = do
  h' ← cleanup_all g devs h
  done (record h' { region = false; cache = false; mem = kfree h'.mem })

-- The table of devices is requested twice, and the first block is forgotten. `cache_made` says
-- whether `kmem_cache_create` succeeds.
unfoldable pub scullc_init :
    Kernel
    → Option Errno
    → (cache_made : Bool) → Config
    → ℕ
    → Host
    → Outcome (Ret × List Dev × Host)
scullc_init k region_error cache_made g n h = elim region_error [
  | some e ↦ done (err e, [], h)
  | none ↦
      let (forgotten, m) = kmalloc k h.mem in
      let (granted, m') = kmalloc k m in
      let (devs, h') = setup_all g n (record h { region = true; mem = m' }) in
      let undone = (do h'' ← scullc_cleanup g devs h'; done (err enomem, [], h'')) in
      if granted
      then (if cache_made then done (ok 0, devs, record h' { cache = true }) else undone)
      else done (err enomem, [], record h { region = false; mem = m' })
]
