-- ===== src/Scull/Module/Unload.antt =====
-- Unloading gives back what the module holds, and a failed load leaves nothing.
use linux_device_driver.Common.{
  ℕ, ◌+◌, ◌≡◌, inl, inr, true, false, ◌∙◌, Option, none, some, List, [], ◌∷◌, arith, refl, sym, ap,
  subst, All, Option-cases,
}
use linux_device_driver.Kernel.{Outcome, done, ◌>>=◌, Mem, Holds, Holds-result, kfree, kfree?}
use linux_device_driver.Kernel.Ledger.{Moves}
use linux_device_driver.Scull.Device.{Dev, Config, blocks, IsValid}
use linux_device_driver.Scull.Device.Trim.{trim-done}
use linux_device_driver.Scull.Pipe.{Pipe}
use linux_device_driver.Scull.Access.{access_cleanup}
use linux_device_driver.Scull.Access.Modules.{
  list_blocks, ItemValid, StaticsValid, static_blocks, access_cleanup_lem,
}
use linux_device_driver.Scull.Module.{Module, free_pipes, p_cleanup, trim_all, cleanup_module}

abbrev pub dev_blocks : List Dev → ℕ
dev_blocks [] = 0
dev_blocks (d ∷ ds) = blocks d.items + dev_blocks ds

abbrev pub buffers : List Pipe → ℕ
buffers [] = 0
buffers (p ∷ ps) = (elim p.buffer [ none ↦ 0 | some b ↦ 1 ]) + buffers ps

abbrev devices_held : Option (List Dev) → ℕ
devices_held none = 0
devices_held (some ds) = 1 + dev_blocks ds

abbrev pipes_held : Option (List Pipe) → ℕ
pipes_held none = 0
pipes_held (some ps) = 1 + buffers ps

-- The blocks that the module holds.
abbrev pub held : Module → ℕ
held h =
    devices_held h.devices + pipes_held h.pipes + static_blocks h.statics + list_blocks h.clones

abbrev DevicesValid : Option (List Dev) → Type 0
DevicesValid none = Unit
DevicesValid (some ds) = All IsValid ds

pub record ModuleValid (h : Module) : Type 0 where
  pub devices_ok : DevicesValid h.devices
  pub statics_ok : StaticsValid h.statics
  pub clones_ok : All ItemValid h.clones
  pub cdevs_ok : h.a_cdevs ≡ true

trim_all-done :
    (g : Config) (ds : List Dev) (m : Mem)
    → All IsValid ds
    → (m' : Mem) × (trim_all g ds m ≡ done m') × Moves m m' 0 (dev_blocks ds)
unfolding trim_all
trim_all-done g [] m h = (m, refl, omega arith)
trim_all-done g (d ∷ ds) m h =
    let (t, e, same, moved) = trim-done g d m h.0 in
    let (m', f, rest) = trim_all-done g ds t.1 h.1 in
    (m', rw (e, ◌>>=◌, f) refl, omega (arith, moved, rest))

free_pipes-Moves : (ps : List Pipe) (m : Mem) → Moves m (free_pipes ps m) 0 (buffers ps)
unfolding free_pipes kfree? kfree
free_pipes-Moves [] m = omega arith
free_pipes-Moves (p ∷ ps) m = elim (Option-cases p.buffer) [
  | inl empty ↦ rw empty (omega (arith, free_pipes-Moves ps m))
  | inr (b, full) ↦ rw full (omega (arith, free_pipes-Moves ps (kfree m)))
]

-- What is left of a module that was unloaded.
pub record Unloaded (h h' : Module) : Type 0 where
  pub numbers_back : (h'.region ≡ false) × (h'.a_region ≡ false)
  pub no_pipes : h'.pipes ≡ none
  pub no_clones : h'.clones ≡ []
  pub freed : Moves h.mem h'.mem 0 (held h)

p_cleanup-Moves :
    (h : Module)
    → ((p_cleanup h).pipes ≡ none)
      × ((p_cleanup h).region ≡ h.region)
      × ((p_cleanup h).statics ≡ h.statics)
      × ((p_cleanup h).clones ≡ h.clones)
      × ((p_cleanup h).a_cdevs ≡ h.a_cdevs)
      × Moves h.mem (p_cleanup h).mem 0 (pipes_held h.pipes)
unfolding p_cleanup kfree
p_cleanup-Moves h = elim (Option-cases h.pipes) [
  | inl e ↦ rw e (refl, refl, refl, refl, refl, omega arith)
  | inr (ps, e) ↦ rw e (refl, refl, refl, refl, refl, omega (arith, free_pipes-Moves ps h.mem))
]

devices_freed :
    (g : Config) (h : Module)
    → DevicesValid h.devices
    → (m : Mem) × ((elim h.devices as (λ o. Outcome Mem) [
      | none ↦ done h.mem
      | some ds ↦ do m' ← trim_all g ds h.mem; done (kfree m')
    ])
        ≡ done m)
      × Moves h.mem m 0 (devices_held h.devices)
unfolding kfree
devices_freed g h valid = go h.devices valid
  where
    go :
        (o : Option (List Dev))
        → DevicesValid o
        → (m : Mem) × ((elim o as (λ o'. Outcome Mem) [
          | none ↦ done h.mem
          | some ds ↦ do m' ← trim_all g ds h.mem; done (kfree m')
        ])
            ≡ done m)
          × Moves h.mem m 0 (devices_held o)
    go none v = (h.mem, refl, omega arith)
    go (some ds) v =
        let (m', e, moved) = trim_all-done g ds h.mem v in
        (kfree m', rw (e, ◌>>=◌) refl, omega (arith, moved))

-- Unloading a valid module, whose access-controlled devices were set up, is defined, gives back
-- exactly the blocks that the module holds, and leaves no pipe, no cloned device and no device
-- numbers of scull or of the access-controlled devices.
pub cleanup_module-Unloaded :
    (g : Config) (h : Module) → ModuleValid h → Holds (Unloaded h) (cleanup_module g h)
unfolding cleanup_module
cleanup_module-Unloaded g h v =
    let (m, e, freed) = devices_freed g h v.devices_ok in
    let h1 = record h { region = false; mem = m } in
    let (none_left, region, statics, clones, cdevs, piped) = p_cleanup-Moves h1 in
    let h' = p_cleanup h1 in
    let (a, f, (given, same, moved)) =
      Holds-result _ (access_cleanup g true h'.statics h'.clones h'.mem) (
        access_cleanup_lem g h'.statics h'.clones h'.mem
          (subst StaticsValid (sym statics) v.statics_ok)
          (subst (All ItemValid) (sym clones) v.clones_ok)) in
    rw (e, ◌>>=◌, cdevs ∙ v.cdevs_ok, f)
      (record {
        numbers_back = (region, given);
        no_pipes = none_left;
        no_clones = refl;
        freed = omega (arith, freed, piped, moved, ap static_blocks statics, ap list_blocks clones);
      })
