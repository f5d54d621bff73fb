-- ===== src/Scullc/Module/Load.antt =====
-- Loading scullc: what a load leaves, and what one that fails takes back.
use linux_device_driver.Common.{
  ℕ, zero, suc, ◌+◌, ◌-◌, ◌≡◌, ◌⊎◌, inl, inr, refl, sym, ◌∙◌, Bool, Bool-cases, if◌then◌else◌, true,
  false, none, List, [], ◌∷◌, arith, length,
}
use linux_device_driver.Kernel.{
  Ret, ok, err, enomem, done, ◌>>=◌, Outcome, Kernel, Mem, Holds, kmalloc, kfree, Holds-mono,
  Holds-done,
}
use linux_device_driver.Kernel.Ledger.{Moves, Balanced, kmalloc_cases}
use linux_device_driver.Kernel.Clash.{ok-ne-err, true-ne-false}
use linux_device_driver.Chain.{held, free_next}
use linux_device_driver.Scullc.{Dev, Config, trim, free_data}
use linux_device_driver.Scullc.Module.{Host, setup_all, scullc_init, cleanup_all, scullc_cleanup}

-- The blocks of all devices, with one for each.
abbrev pub total : List Dev → ℕ
total [] = 0
total (dev ∷ devs) = held dev.store + total devs

record SetUp (n : ℕ) (h : Host) (r : List Dev × Host) : Type 0 where
  pub each : length r.0 ≡ n
  pub single : total r.0 ≡ n
  pub cdevs_up : r.1.cdevs ≡ h.cdevs + n
  pub same_mem : r.1.mem ≡ h.mem

setup_all-SetUp : (g : Config) (n : ℕ) (h : Host) → SetUp n h (setup_all g n h)
unfolding setup_all
setup_all-SetUp g zero h = record {
  each = refl;
  single = refl;
  cdevs_up = omega arith;
  same_mem = refl;
}
setup_all-SetUp g (suc n) h =
    let v = setup_all-SetUp g n (record h { cdevs = h.cdevs + 1 }) in
    record {
      each = omega (arith, v);
      single = omega (arith, v);
      cdevs_up = omega (arith, v);
      same_mem = v.same_mem;
    }

-- Devices that were never written have nothing to give back.
cleanup_all-setup_all :
    (g : Config) (n : ℕ) (h h1 : Host)
    → (h' : Host) × (cleanup_all g (setup_all g n h).0 h1 ≡ done h')
      × (h'.cdevs ≡ h1.cdevs - n)
      × (h'.mem ≡ h1.mem)
unfolding cleanup_all setup_all trim free_data free_next
cleanup_all-setup_all g zero h h1 = (h1, refl, omega arith, refl)
cleanup_all-setup_all g (suc n) h h1 =
    let (h', e, down, same) =
      cleanup_all-setup_all g n (record h { cdevs = h.cdevs + 1 })
        (record h1 { cdevs = h1.cdevs - 1 }) in
    (h', e, omega (arith, down), same)

-- The block of the first request for the table.
abbrev pub lost : Kernel → Mem → ℕ
lost k m = if k.grants m.requests then 1 else 0

kmalloc-lost : (k : Kernel) (m : Mem) → Moves m (kmalloc k m).1 (lost k m) 0
unfolding kmalloc
kmalloc-lost k m = elim (Bool-cases (k.grants m.requests)) [
  | inl e ↦ rw e (omega arith)
  | inr e ↦ rw e (omega arith)
]

-- The host after both requests for the table.
abbrev asked_twice : Kernel → Host → Host
asked_twice k h = record h { region = true; mem = (kmalloc k (kmalloc k h.mem).1).1 }

record Failed (k : Kernel) (h : Host) (r : Ret × List Dev × Host) : Type 0 where
  pub failed : r.0 ≡ err enomem
  pub no_region : r.2.region ≡ false
  pub no_cache : r.2.cache ≡ false
  pub same_cdevs : r.2.cdevs ≡ h.cdevs
  pub leak : Balanced h.mem r.2.mem 0 (lost k h.mem)

no_table-Failed :
    (k : Kernel) (made : Bool) (g : Config) (n : ℕ) (h : Host)
    → h.cache ≡ false
    → (kmalloc k (kmalloc k h.mem).1).0 ≡ false
    → Moves (kmalloc k h.mem).1 (kmalloc k (kmalloc k h.mem).1).1 0 0
    → Holds (Failed k h) (scullc_init k none made g n h)
unfolding scullc_init
no_table-Failed k made g n h clean refused moved =
    let first = kmalloc-lost k h.mem in
    rw refused (record {
      failed = refl;
      no_region = refl;
      no_cache = clean;
      same_cdevs = refl;
      leak = omega (arith, first, moved);
    })

no_cache-Failed :
    (k : Kernel) (g : Config) (n : ℕ) (h : Host)
    → (kmalloc k (kmalloc k h.mem).1).0 ≡ true
    → Moves (kmalloc k h.mem).1 (kmalloc k (kmalloc k h.mem).1).1 1 0
    → Holds (Failed k h) (scullc_init k none false g n h)
unfolding scullc_init scullc_cleanup kfree
no_cache-Failed k g n h granted moved =
    let first = kmalloc-lost k h.mem in
    let h0 = asked_twice k h in
    let v = setup_all-SetUp g n h0 in
    let (h', e, down, same) = cleanup_all-setup_all g n h0 (setup_all g n h0).1 in
    rw (granted, e, ◌>>=◌)
      (record {
        failed = refl;
        no_region = refl;
        no_cache = refl;
        same_cdevs = omega (arith, down, v);
        leak = rw (same, v.same_mem) (omega (arith, first, moved));
      })

-- A load that finds no memory for the table or gets no cache fails with ENOMEM and takes every
-- registration back; the block of the first request for the table is lost if it was granted.
pub failed_load :
    (k : Kernel) (made : Bool) (g : Config) (n : ℕ) (h : Host)
    → h.cache ≡ false
    → (made ≡ false) ⊎ ((kmalloc k (kmalloc k h.mem).1).0 ≡ false)
    → Holds
        (λ r.
          (r.0 ≡ err enomem)
          × (r.2.region ≡ false)
          × (r.2.cache ≡ false)
          × (r.2.cdevs ≡ h.cdevs)
          × Balanced h.mem r.2.mem 0 (lost k h.mem))
        (scullc_init k none made g n h)
failed_load k made g n h clean why =
    Holds-mono (Failed k h) _ (scullc_init k none made g n h)
      (λ r v. (v.failed, v.no_region, v.no_cache, v.same_cdevs, v.leak))
      (elim (kmalloc_cases k (kmalloc k h.mem).1) [
        | inr (refused, moved, cause) ↦ no_table-Failed k made g n h clean refused moved
        | inl (granted, moved) ↦ elim why [
          | inl unmade ↦ rw unmade (no_cache-Failed k g n h granted moved)
          | inr refused ↦ absurd (true-ne-false (sym granted ∙ refused))
        ]
      ])

-- What a load that succeeds leaves.
pub record Loaded (k : Kernel) (n : ℕ) (h : Host) (devs : List Dev) (h1 : Host) : Type 0 where
  pub each : length devs ≡ n
  pub single : total devs ≡ n
  pub cdevs_up : h1.cdevs ≡ h.cdevs + n
  pub got : Moves h.mem h1.mem (lost k h.mem + 1) 0

refute_load :
    (k : Kernel) (h : Host) (o : Outcome (Ret × List Dev × Host)) (devs : List Dev) (h1 : Host)
    → o ≡ done (ok 0, devs, h1)
    → ¬ Holds (Failed k h) o
refute_load k h o devs h1 e v = ok-ne-err (Holds-done (Failed k h) o v e).failed

made_load :
    (k : Kernel) (g : Config) (n : ℕ) (h : Host)
    → (kmalloc k (kmalloc k h.mem).1).0 ≡ true
    → Moves (kmalloc k h.mem).1 (kmalloc k (kmalloc k h.mem).1).1 1 0
    → Holds (λ r. Loaded k n h r.1 r.2) (scullc_init k none true g n h)
unfolding scullc_init
made_load k g n h granted moved =
    let first = kmalloc-lost k h.mem in
    let v = setup_all-SetUp g n (asked_twice k h) in
    rw granted (record {
      each = v.each;
      single = v.single;
      cdevs_up = v.cdevs_up;
      got = rw v.same_mem (omega (arith, first, moved));
    })

pub scullc_init-Loaded :
    (k : Kernel) (made : Bool) (g : Config) (n : ℕ) (h : Host) (devs : List Dev) (h1 : Host)
    → h.cache ≡ false
    → scullc_init k none made g n h ≡ done (ok 0, devs, h1)
    → Loaded k n h devs h1
scullc_init-Loaded k made g n h devs h1 clean e =
    let fails = refute_load k h (scullc_init k none made g n h) devs h1 e in
    elim (kmalloc_cases k (kmalloc k h.mem).1) [
      | inr (refused, moved, cause) ↦
          absurd (fails (no_table-Failed k made g n h clean refused moved))
      | inl (granted, moved) ↦ elim (Bool-cases made) [
        | inr unmade ↦ absurd (fails (rw unmade (no_cache-Failed k g n h granted moved)))
        | inl is_made ↦
            Holds-done (λ r. Loaded k n h r.1 r.2) (scullc_init k none made g n h)
              (rw is_made (made_load k g n h granted moved)) e
      ]
    ]
