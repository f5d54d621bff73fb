-- ===== src/Scull/Tests/Modules.antt =====
-- Loading and unloading the module with small quanta.
use linux_device_driver.Common.{◌≡◌, ◌⊎◌, refl, true, false, Option, none, some, [], ◌∷◌, arith}
use linux_device_driver.Kernel.{Errno, oops, Holds}
use linux_device_driver.Kernel.Samples.{generous, fresh_mem}
use linux_device_driver.Scull.Module.{Module, new_pipe, init_module, cleanup_module}
use linux_device_driver.Scull.Module.Unload.{Unloaded, cleanup_module-Unloaded}
use linux_device_driver.Scull.Module.Load.{Loads, unloaded, init_module-Loads}
use linux_device_driver.Scull.Tests.Devices.{small_config, used_dev, used_dev-IsValid}

abbrev no_error : Option Errno
no_error = none

init_module-Loads_example :
    Holds
      (Loads fresh_mem)
      (init_module generous small_config no_error true true 4 4 (unloaded fresh_mem))
    ⊎ ((no_error ≡ none)
        × (generous.grants fresh_mem.requests ≡ false)
        × (init_module generous small_config no_error true true 4 4 (unloaded fresh_mem) ≡ oops))
init_module-Loads_example =
    init_module-Loads generous small_config no_error true 4 4 fresh_mem
      (record { some_bytes = omega arith; int_sized = omega arith })

-- Two devices, one in use, and two pipes, one with a buffer.
abbrev busy_module : Module
busy_module = record (unloaded fresh_mem) {
  devices = some (used_dev ∷ used_dev ∷ []);
  pipes = some (record new_pipe { buffer = some (1 ∷ 2 ∷ []) } ∷ new_pipe ∷ []);
  statics = record {
    s_device = used_dev;
    u_device = used_dev;
    w_device = used_dev;
    c_device = used_dev;
  };
  region = true;
  p_region = true;
  a_region = true;
  a_cdevs = true;
}

cleanup_module-Unloaded_example :
    Holds (Unloaded busy_module) (cleanup_module small_config busy_module)
cleanup_module-Unloaded_example = cleanup_module-Unloaded small_config busy_module (record {
  devices_ok = (used_dev-IsValid, (used_dev-IsValid, tt));
  statics_ok = record {
    s_valid = used_dev-IsValid;
    u_valid = used_dev-IsValid;
    w_valid = used_dev-IsValid;
    c_valid = used_dev-IsValid;
  };
  clones_ok = tt;
  cdevs_ok = refl;
})
