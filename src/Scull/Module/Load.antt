-- ===== src/Scull/Module/Load.antt =====
-- Loading the module: a load that succeeds leaves a valid module whose blocks are accounted for, and
-- one that fails leaves nothing.
use linux_device_driver.Common.{
  ℕ, ◌+◌, Bool-cases, zero, suc, ◌*◌, ◌≡◌, ◌≤◌, ◌<◌, ◌⊎◌, inl, inr, Bool, true, false, Option, none,
  some, [], arith, refl, All, All-replicate, replicate,
}
use linux_device_driver.Kernel.{Errno, Ret, ok, err, oops, Kernel, Mem, Holds, kmalloc}
use linux_device_driver.Kernel.Ledger.{Moves, Balanced, kmalloc_cases}
use linux_device_driver.Scull.Device.{Dev, Config, int_max, IsValid}
use linux_device_driver.Scull.Access.{access_init, access_cleanup, cdev_del, setup}
use linux_device_driver.Scull.Access.Modules.{StaticsValid, static_blocks}
use linux_device_driver.Scull.Module.{
  Module, new_dev, new_pipe, p_init, p_cleanup, cleanup_module, init_module,
}
use linux_device_driver.Scull.Module.Unload.{dev_blocks, buffers, held, ModuleValid}

-- The module's variables before it is loaded: null and zero.
abbrev pub zero_dev : Dev
zero_dev = record { items = []; quantum = 0; qset = 0; size = 0; access_key = 0 }

abbrev pub unloaded : Mem → Module
unloaded m = record {
  devices = none;
  pipes = none;
  statics = record {
    s_device = zero_dev;
    u_device = zero_dev;
    w_device = zero_dev;
    c_device = zero_dev;
  };
  clones = [];
  region = false;
  p_region = false;
  a_region = false;
  a_cdevs = false;
  mem = m;
}

-- Sizes that the module's parameters may have.
pub record ConfigValid (g : Config) : Type 0 where
  pub some_bytes : 0 < g.quantum * g.qset
  pub int_sized : g.quantum * g.qset ≤ int_max

abbrev pub Loads : Mem → Ret × Module → Type 0
Loads m r =
    ((r.0 ≡ ok 0) × ModuleValid r.1 × Balanced m r.1.mem 0 (held r.1))
    ⊎ (((e : Errno) × (r.0 ≡ err e))
        × (r.1.region ≡ false)
        × (r.1.p_region ≡ false)
        × (r.1.a_region ≡ false)
        × Balanced m r.1.mem 0 0)

new_dev-IsValid : (g : Config) → ConfigValid g → IsValid (new_dev g)
new_dev-IsValid g v = record { shaped = tt; some_bytes = v.some_bytes; int_sized = v.int_sized }

dev_blocks-new : (g : Config) (n : ℕ) → dev_blocks (replicate n (new_dev g)) ≡ 0
dev_blocks-new g zero = refl
dev_blocks-new g (suc n) = omega (arith, dev_blocks-new g n)

buffers-new : (n : ℕ) → buffers (replicate n new_pipe) ≡ 0
buffers-new zero = refl
buffers-new (suc n) = omega (arith, buffers-new n)

-- The clean-up of a load that got no memory for its devices.
cleanup_of_nothing :
    (g : Config) (m : Mem) → cleanup_module g (record (unloaded m) { region = true }) ≡ oops
unfolding cleanup_module p_cleanup access_cleanup cdev_del
cleanup_of_nothing g m = refl

-- The module once its devices are there.
module _ (g : Config) (v : ConfigValid g) (nr_devs : ℕ) (m m1 : Mem) (moved : Moves m m1 1 0) where
  abbrev with_devices : Module
  with_devices = record (unloaded m1) {
    devices = some (replicate nr_devs (new_dev g));
    region = true;
  }

  abbrev finished : Module → Module
  finished h = record h {
    statics = (access_init g true h.statics).1;
    a_region = true;
    a_cdevs = true;
  }

  devices_ready : All IsValid (replicate nr_devs (new_dev g))
  devices_ready = All-replicate IsValid nr_devs (new_dev g) (new_dev-IsValid g v)

  statics_ready : StaticsValid (access_init g true with_devices.statics).1
  unfolding access_init setup
  statics_ready = record {
    s_valid = new_dev-IsValid g v;
    u_valid = new_dev-IsValid g v;
    w_valid = new_dev-IsValid g v;
    c_valid = new_dev-IsValid g v;
  }

  no_static_blocks : static_blocks (access_init g true with_devices.statics).1 ≡ 0
  unfolding access_init setup
  no_static_blocks = refl

  loaded :
      (k : Kernel) (p_registered : Bool) (p_nr_devs : ℕ)
      → Loads m (ok 0, finished (p_init k p_registered p_nr_devs with_devices).1)
  unfolding p_init
  loaded k false p_nr_devs = inl (
    refl,
    record {
      devices_ok = devices_ready;
      statics_ok = statics_ready;
      clones_ok = tt;
      cdevs_ok = refl;
    },
    omega (arith, moved, no_static_blocks, dev_blocks-new g nr_devs),
  )
  loaded k true p_nr_devs = elim (kmalloc_cases k m1) [
    | inl (granted, more) ↦ rw granted (
        inl (
          refl,
          record {
            devices_ok = devices_ready;
            statics_ok = statics_ready;
            clones_ok = tt;
            cdevs_ok = refl;
          },
          omega (
            arith,
            moved,
            more,
            no_static_blocks,
            dev_blocks-new g nr_devs,
            buffers-new p_nr_devs,
          ),
        ))
    | inr (refused, more, why) ↦ rw refused (
        inl (
          refl,
          record {
            devices_ok = devices_ready;
            statics_ok = statics_ready;
            clones_ok = tt;
            cdevs_ok = refl;
          },
          omega (arith, moved, more, no_static_blocks, dev_blocks-new g nr_devs),
        ))
  ]

-- Loading the module from scratch, with parameters whose sizes are usable and with the numbers of the
-- access-controlled devices free. Where no device numbers are to be had or the table of devices gets
-- its memory, whatever else the kernel answers, the load succeeds and leaves a valid module whose
-- blocks are accounted for, or fails with no device numbers kept and no block leaked. Where the table
-- gets no memory, the clean-up deletes character devices that were never set up.
pub init_module-Loads :
    (k : Kernel) (g : Config) (region_error : Option Errno) (p_registered : Bool)
    (nr_devs p_nr_devs : ℕ) (m : Mem)
    → ConfigValid g
    → Holds
        (Loads m)
        (init_module k g region_error p_registered true nr_devs p_nr_devs (unloaded m))
      ⊎ ((region_error ≡ none)
          × (k.grants m.requests ≡ false)
          × (init_module k g region_error p_registered true nr_devs p_nr_devs (unloaded m) ≡ oops))
unfolding init_module kmalloc
init_module-Loads k g (some e) p_registered nr_devs p_nr_devs m v =
    inl (inr ((e, refl), refl, refl, refl, omega arith))
init_module-Loads k g none p_registered nr_devs p_nr_devs m v =
    elim (Bool-cases (k.grants m.requests)) [
      | inr refused ↦
          let m1 = record m { requests = m.requests + 1 } in
          inr (refl, refused, rw (refused, cleanup_of_nothing g m1) refl)
      | inl granted ↦
          let m1 = record m { requests = m.requests + 1; allocs = m.allocs + 1 } in
          inl (rw granted (loaded g v nr_devs m m1 (omega arith) k p_registered p_nr_devs))
    ]
