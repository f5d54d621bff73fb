-- ===== src/Sculld/Module.antt =====
-- `sculld_init` and `sculld_cleanup` of sculld/main.c.
pub mod Life
use linux_device_driver.Common.{
  ℕ, zero, suc, ◌+◌, ◌-◌, ◌≡◌, inl, inr, refl, sym, ap, ◌∙◌, Bool, true, false, Option, none, some,
  List, [], ◌∷◌, arith, length, if◌then◌else◌, All,
}
use linux_device_driver.Kernel.{
  Errno, Ret, ok, err, enomem, Outcome, done, ◌>>=◌, Kernel, Mem, Holds, Holds-result, kmalloc,
  kfree,
}
use linux_device_driver.Kernel.Ledger.{Moves, Balanced, kmalloc_cases}
use linux_device_driver.Kernel.Clash.{ok-ne-err}
use linux_device_driver.Scull.Device.{IsValid}
use linux_device_driver.Chain.{held}
use linux_device_driver.Chain.AsScull.{as_scull}
use linux_device_driver.Sculld.{Dev, Config, quantum_of, trim}
use linux_device_driver.Sculld.Trim.{Trimmed, emptied, mapped, trim-Trimmed}

-- What the module has registered with the kernel: the device numbers, the driver, the character
-- devices and the devices of the virtual bus.
pub record Host : Type 0 where
  pub region : Bool
  pub driver : Bool
  pub cdevs : ℕ
  pub ldevs : ℕ
  pub mem : Mem

abbrev pub fresh : Config → Dev
fresh g = record {
  store = record { array = none; next = []; qset = g.qset; size = 0 };
  vmas = 0;
  order = g.order;
}

-- The loop that sets the devices up; failures of the registrations are not looked at.
unfoldable pub setup_all : Config → ℕ → Host → List Dev × Host
setup_all g zero h = ([], h)
setup_all g (suc n) h =
    let (devs, h') = setup_all g n (record h { cdevs = h.cdevs + 1; ldevs = h.ldevs + 1 }) in
    (fresh g ∷ devs, h')

unfoldable pub sculld_init : Kernel → Option Errno → Config → ℕ → Host → Ret × List Dev × Host
sculld_init k region_error g n h = elim region_error [
  | some e ↦ (err e, [], h)
  | none ↦
      let (granted, m) = kmalloc k h.mem in
      if granted
      then (let (devs, h') = setup_all g n (record h { region = true; driver = true; mem = m }) in
          (ok 0, devs, h'))
      else (err enomem, [], record h { region = false; driver = true; mem = m })
]

-- The loop that takes the devices down; what `sculld_trim` returns is not looked at.
unfoldable pub cleanup_all : Config → List Dev → Host → Outcome Host
cleanup_all g [] h = done h
cleanup_all g (dev ∷ devs) h = do
  t ← trim g dev h.mem
  cleanup_all g devs (record h { cdevs = h.cdevs - 1; ldevs = h.ldevs - 1; mem = t.2 })

unfoldable pub sculld_cleanup : Config → List Dev → Host → Outcome Host
sculld_cleanup g devs h = do
  h' ← cleanup_all g devs h
  done (record h' { region = false; driver = false; mem = kfree h'.mem })
