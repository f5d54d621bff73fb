-- ===== src/Bus/Load.antt =====
-- Loading and unloading the bus, and the buffer of a hotplug event.
use linux_device_driver.Common.{
  ℕ, ◌-◌, ◌≡◌, ◌≤◌, ◌<◌, ◌⊎◌, inl, inr, true, false, Option, none, some, List, [], ◌∷◌, ◌++◌, arith,
  refl, length, take, take_all, drop, leb, ◌==◌, Bool-cases, length-take, length-append,
  length-drop,
}
use mathlib.Core.List.{append_assoc}
use linux_device_driver.Kernel.{Errno, enomem, ok, err}
use linux_device_driver.Bus.{
  string_in, snprintf, ldd_hotplug, Registered, register_ldd_driver, unregister_ldd_driver,
  ldd_bus_init, ldd_bus_exit,
}
use linux_device_driver.Bus.Match.{IsString}

abbrev pub nothing_registered : Registered
nothing_registered = record { bus = false; bus_device = false; driver = false; attribute = false }

string_in-ended : (s bytes : List ℕ) → IsString s → string_in (s ++ (0 ∷ bytes)) ≡ some s
unfolding string_in
string_in-ended [] bytes h = refl
string_in-ended (b ∷ s) bytes h =
    let set : (b == 0) ≡ false = ground (arith, h.0) in rw (set, string_in-ended s bytes h.1) refl

written_over :
    (written buffer : List ℕ)
    → length written ≤ length buffer
    → length (written ++ drop (length written) buffer) ≡ length buffer
written_over written buffer h = omega (
  arith,
  h,
  length-append written (drop (length written) buffer),
  length-drop (length written) buffer,
)

snprintf-le : (size : ℕ) (s : List ℕ) → length (snprintf size s) ≤ size
unfolding snprintf
snprintf-le size s = elim (Bool-cases (size == 0)) [
  | inl none_left ↦ rw none_left (omega arith)
  | inr room ↦
      rw room
        (ground (arith, room, length-append (take (size - 1) s) (0 ∷ []), length-take (size - 1) s))
]

snprintf_whole : (size : ℕ) (s : List ℕ) → length s < size → snprintf size s ≡ s ++ (0 ∷ [])
unfolding snprintf
snprintf_whole size s room =
    let some_room : (size == 0) ≡ false = ground (arith, room) in
    rw (some_room, take_all (size - 1) s (omega (arith, room))) refl

-- The hotplug handler never writes past the buffer; it fails exactly where the variable does not fit
-- with its null byte, and else the buffer holds the variable.
pub ldd_hotplug_lem :
    (variable buffer : List ℕ)
    → IsString variable
    → let (r, buffer') = ldd_hotplug variable buffer in
      (length buffer' ≡ length buffer)
      × (length buffer ≤ length variable → r ≡ err enomem)
      × (length variable < length buffer → (r ≡ ok 0) × (string_in buffer' ≡ some variable))
unfolding ldd_hotplug
ldd_hotplug_lem variable buffer h =
    let written = snprintf (length buffer) variable in
    let kept = written_over written buffer (snprintf-le (length buffer) variable) in
    elim (Bool-cases (leb (length buffer) (length variable))) [
      | inl short ↦ rw short (kept, (λ few. refl), λ room. absurd (ground (arith, short, room)))
      | inr fits ↦ rw fits (
        kept,
        (λ few. absurd (ground (arith, fits, few))),
        λ room. (
          refl,
          rw
              (
                snprintf_whole (length buffer) variable room,
                append_assoc variable (0 ∷ []) (drop (length (variable ++ (0 ∷ []))) buffer),
              )
              (string_in-ended variable _ h),
        ),
      )
    ]

-- Loading the bus from scratch either fails and leaves nothing, or fails when the bus's device is
-- refused and leaves the bus registered, or succeeds; then a driver may come and go, and unloading
-- leaves nothing.
pub bus_life :
    (no_bus no_device refused no_file : Option Errno)
    → let (r, loaded) = ldd_bus_init no_bus no_device nothing_registered in
      ((r ≡ ok 0)
        × (ldd_bus_exit (unregister_ldd_driver (register_ldd_driver refused no_file loaded).1)
            ≡ nothing_registered))
      ⊎ (((e : Errno) × (r ≡ err e))
          × ((loaded ≡ nothing_registered) ⊎ (loaded ≡ record nothing_registered { bus = true })))
unfolding ldd_bus_init ldd_bus_exit unregister_ldd_driver register_ldd_driver
bus_life (some e) no_device refused no_file = inr ((e, refl), inl refl)
bus_life none (some e) refused no_file = inr ((e, refl), inr refl)
bus_life none none (some x) no_file = inl (refl, refl)
bus_life none none none (some x) = inl (refl, refl)
bus_life none none none none = inl (refl, refl)
