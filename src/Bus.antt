-- ===== src/Bus.antt =====
-- The virtual bus, lddbus/lddbus.c. A string is the list of its bytes before the null byte; a buffer
-- is a list of all its bytes.
pub mod Match
pub mod Load
mod Tests
use linux_device_driver.Common.{
  ℕ, zero, suc, ◌+◌, ◌-◌, Bool, true, false, Option, none, some, List, [], ◌∷◌, ◌++◌, ◌&&◌,
  if◌then◌else◌, leb, ◌==◌, length, take, replicate,
}
use linux_device_driver.Kernel.{Errno, enomem, Ret, ok, err}

-- The kernel's `strncmp(a, b, n) == 0`.
unfoldable pub same_start : ℕ → List ℕ → List ℕ → Bool
same_start zero a b = true
same_start (suc n) [] [] = true
same_start (suc n) [] (y ∷ b) = false
same_start (suc n) (x ∷ a) [] = false
same_start (suc n) (x ∷ a) (y ∷ b) = x == y && same_start n a b

-- `ldd_match` of a device's `bus_id` and a driver's name.
unfoldable pub ldd_match : (bus_id name : List ℕ) → Bool
ldd_match bus_id name = same_start (length name) bus_id name

-- The kernel's `strncpy` into a buffer of `size` bytes: no null byte ends a string that fills it.
unfoldable pub strncpy : ℕ → List ℕ → List ℕ
strncpy size s = take size s ++ replicate (size - length s) 0

-- The string in a buffer; nothing if no null byte ends it.
unfoldable pub string_in : List ℕ → Option (List ℕ)
string_in [] = none
string_in (b ∷ bytes) =
    let rest = string_in bytes in
    if b == 0 then some [] else elim rest [ none ↦ none | some s ↦ some (b ∷ s) ]

-- `struct ldd_device`, as far as the bus knows it.
pub record Device : Type 0 where
  pub bus_id : List ℕ
  pub on_bus : Bool

-- `register_ldd_device`: `refused` is what `device_register` answers.
unfoldable pub register_ldd_device :
    (bus_id_size : ℕ) (refused : Option Errno) → List ℕ → Ret × Device
register_ldd_device bus_id_size refused name =
    let bus_id = strncpy bus_id_size name in
    elim refused [
      | none ↦ (ok 0, record { bus_id = bus_id; on_bus = true })
      | some e ↦ (err e, record { bus_id = bus_id; on_bus = false })
    ]

-- What the kernel's `snprintf` writes of a string into a buffer of `size` bytes.
unfoldable pub snprintf : ℕ → List ℕ → List ℕ
snprintf size s = if size == 0 then [] else take (size - 1) s ++ (0 ∷ [])

-- `ldd_hotplug`: the result, and the buffer with the variable LDDBUS_VERSION. The two entries of the
-- array `envp`, which point to the buffer and to nothing, are left out.
unfoldable pub ldd_hotplug : (variable buffer : List ℕ) → Ret × List ℕ
ldd_hotplug variable buffer =
    let size = length buffer in
    let written = snprintf size variable in
    let buffer' = written ++ linux_device_driver.Common.drop (length written) buffer in
    if leb size (length variable) then (err enomem, buffer') else (ok 0, buffer')

-- What the bus has registered: the bus, its device, a driver and the driver's attribute.
pub record Registered : Type 0 where
  pub bus : Bool
  pub bus_device : Bool
  pub driver : Bool
  pub attribute : Bool

-- `register_ldd_driver` and `unregister_ldd_driver`: what `driver_register` and
-- `driver_create_file` answer.
unfoldable pub register_ldd_driver :
    (refused no_file : Option Errno) → Registered → Ret × Registered
register_ldd_driver (some e) no_file r = (err e, r)
register_ldd_driver none (some e) r = (err e, record r { driver = true })
register_ldd_driver none none r = (ok 0, record r { driver = true; attribute = true })

unfoldable pub unregister_ldd_driver : Registered → Registered
unregister_ldd_driver r = record r { driver = false; attribute = false }

-- `ldd_bus_init` and `ldd_bus_exit`: what `bus_register` and `device_register` answer.
unfoldable pub ldd_bus_init : (no_bus no_device : Option Errno) → Registered → Ret × Registered
ldd_bus_init (some e) no_device r = (err e, r)
ldd_bus_init none (some e) r = (err e, record r { bus = true })
ldd_bus_init none none r = (ok 0, record r { bus = true; bus_device = true })

unfoldable pub ldd_bus_exit : Registered → Registered
ldd_bus_exit r = record r { bus_device = false; bus = false }
