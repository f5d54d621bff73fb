-- ===== src/Scull/Tests/Devices.antt =====
-- Small devices: items of two quanta of four bytes.
use linux_device_driver.Common.{none, some, [], ◌∷◌, refl, arith}
use linux_device_driver.Scull.Device.{Dev, Config, IsValid}

abbrev pub small_config : Config
small_config = record { quantum = 4; qset = 2; p_buffer = 8 }

abbrev pub empty_dev : Dev
empty_dev = record { items = []; quantum = 4; qset = 2; size = 0; access_key = 0 }

-- Item 0 lacks its second quantum; three bytes were written, and one of the quantum's is stale.
abbrev pub used_dev : Dev
used_dev = record {
  items = some (some (10 ∷ 11 ∷ 12 ∷ 99 ∷ []) ∷ none ∷ []) ∷ [];
  quantum = 4;
  qset = 2;
  size = 2;
  access_key = 0;
}

pub empty_dev-IsValid : IsValid empty_dev
empty_dev-IsValid = record { shaped = tt; some_bytes = omega arith; int_sized = omega arith }

pub used_dev-IsValid : IsValid used_dev
used_dev-IsValid = record {
  shaped = ((refl, (refl, (tt, tt))), tt);
  some_bytes = omega arith;
  int_sized = omega arith;
}
