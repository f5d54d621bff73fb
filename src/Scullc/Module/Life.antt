-- ===== src/Scullc/Module/Life.antt =====
-- Loading scullc, using its devices and unloading it.
use linux_device_driver.Common.{
  ℕ, ◌+◌, ◌-◌, ◌≡◌, refl, Bool, false, none, List, [], ◌∷◌, arith, length, All,
}
use linux_device_driver.Kernel.{ok, done, ◌>>=◌, Kernel, Mem, Holds, Holds-result, kfree}
use linux_device_driver.Kernel.Ledger.{Balanced}
use linux_device_driver.Scull.Device.{IsValid}
use linux_device_driver.Chain.AsScull.{as_scull}
use linux_device_driver.Scullc.{Dev, Config, trim}
use linux_device_driver.Scullc.Trim.{arrays, Leaked, trim-Leaked}
use linux_device_driver.Scullc.Module.{Host, scullc_init, cleanup_all, scullc_cleanup}
use linux_device_driver.Scullc.Module.Load.{total, lost, scullc_init-Loaded}

-- The arrays of all devices.
abbrev pub all_arrays : List Dev → ℕ
all_arrays [] = 0
all_arrays (dev ∷ devs) = arrays (dev.store.array ∷ dev.store.next) + all_arrays devs

-- A device that may be taken down: valid, and not trimmed before.
abbrev pub IsLive : Dev → Type 0
IsLive dev = IsValid (as_scull dev.quantum dev.store) × (dev.stale ≡ none)

-- What the loop of the clean-up leaves of the host.
record TakenDown (devs : List Dev) (h h' : Host) : Type 0 where
  pub cdevs_down : h'.cdevs ≡ h.cdevs - length devs
  pub freed : Balanced h.mem h'.mem (total devs) (length devs + all_arrays devs)

cleanup_all-TakenDown :
    (g : Config) (devs : List Dev) (h : Host)
    → All IsLive devs
    → Holds (TakenDown devs h) (cleanup_all g devs h)
unfolding cleanup_all
cleanup_all-TakenDown g [] h live = record { cdevs_down = omega arith; freed = omega arith }
cleanup_all-TakenDown g (dev ∷ devs) h (live, rest) =
    let (t, e, v) =
      Holds-result (Leaked g dev h.mem) (trim g dev h.mem)
        (trim-Leaked g dev h.mem live.0 live.1) in
    let h1 = record h { cdevs = h.cdevs - 1; mem = t.1 } in
    let (h', e', w) =
      Holds-result (TakenDown devs h1) (cleanup_all g devs h1)
        (cleanup_all-TakenDown g devs h1 rest) in
    rw (e, ◌>>=◌, e') (record { cdevs_down = omega (arith, w); freed = omega (arith, w, v.leak) })

-- The module is loaded, its devices are used, and it is unloaded: if the devices then are as many,
-- valid and not trimmed, and their blocks are accounted for, the unloading is defined and takes back
-- every registration, but one block is lost for each array of the devices, and one more if the first
-- request for the table was granted.
pub load_use_unload_leaks :
    (k : Kernel) (made : Bool) (g : Config) (n : ℕ) (h : Host) (devs devs' : List Dev) (h1 : Host)
    (m : Mem)
    → h.cache ≡ false
    → scullc_init k none made g n h ≡ done (ok 0, devs, h1)
    → length devs' ≡ length devs
    → All IsLive devs'
    → Balanced h1.mem m (total devs) (total devs')
    → Holds
        (λ h2.
          (h2.region ≡ false)
          × (h2.cache ≡ false)
          × (h2.cdevs ≡ h.cdevs)
          × Balanced h.mem h2.mem 0 (all_arrays devs' + lost k h.mem))
        (scullc_cleanup g devs' (record h1 { mem = m }))
unfolding scullc_cleanup kfree
load_use_unload_leaks k made g n h devs devs' h1 m clean loaded same live used =
    let v = scullc_init-Loaded k made g n h devs h1 clean loaded in
    let h0 = record h1 { mem = m } in
    let (h', e, w) =
      Holds-result (TakenDown devs' h0) (cleanup_all g devs' h0)
        (cleanup_all-TakenDown g devs' h0 live) in
    rw (e, ◌>>=◌) (refl, refl, omega (arith, v, w, same), omega (arith, v, w, used, same))
