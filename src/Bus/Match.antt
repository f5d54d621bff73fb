-- ===== src/Bus/Match.antt =====
-- Which devices a driver is matched with.
use linux_device_driver.Common.{
  ℕ, suc, ◌-◌, ◌≡◌, ◌<◌, ◌≢◌, true, false, Option, none, some, List, [], ◌∷◌, ◌++◌, ◌↔◌, ◌==◌,
  arith, refl, length, take_all, replicate, All,
}
use linux_device_driver.Kernel.{Errno}
use linux_device_driver.Bus.{same_start, ldd_match, strncpy, string_in, register_ldd_device}

same_start-prefix : (name rest : List ℕ) → same_start (length name) (name ++ rest) name ≡ true
unfolding same_start
same_start-prefix [] rest = refl
same_start-prefix (x ∷ name) rest = ground (arith, same_start-prefix name rest)

prefix-same_start :
    (bus_id name : List ℕ)
    → same_start (length name) bus_id name ≡ true
    → (rest : List ℕ) × (bus_id ≡ name ++ rest)
unfolding same_start
prefix-same_start bus_id [] e = (bus_id, refl)
prefix-same_start [] (y ∷ name) e = absurd (ground (arith, e))
prefix-same_start (x ∷ bus_id) (y ∷ name) e =
    let (rest, same) = prefix-same_start bus_id name (ground (arith, e)) in
    let first : x ≡ y = ground (arith, e) in (rest, rw (first, same) refl)

-- The bytes of a string: none is null.
abbrev pub IsString : List ℕ → Type 0
IsString s = All (λ (b : ℕ). b ≢ 0) s

string_in-padded : (s : List ℕ) (n : ℕ) → IsString s → string_in (s ++ replicate (suc n) 0) ≡ some s
unfolding string_in
string_in-padded [] n h = refl
string_in-padded (b ∷ s) n h =
    let set : (b == 0) ≡ false = ground (arith, h.0) in rw (set, string_in-padded s n h.1) refl

-- The name that a device is registered under is read back whole if it is shorter than BUS_ID_SIZE.
bus_id_read_back :
    (size : ℕ) (name : List ℕ)
    → IsString name
    → length name < size
    → string_in (strncpy size name) ≡ some name
unfolding strncpy
bus_id_read_back size name h short =
    let pad : size - length name ≡ suc (size - length name - 1) = omega (arith, short) in
    rw (take_all size name (omega (arith, short)), pad)
      (string_in-padded name (size - length name - 1) h)

-- A device that was registered under a string shorter than BUS_ID_SIZE has that string as its
-- `bus_id`, and the bus matches it with exactly the drivers whose name its own name starts with.
pub registered_match :
    (size : ℕ) (refused : Option Errno) (name driver : List ℕ)
    → IsString name
    → length name < size
    → (string_in (register_ldd_device size refused name).1.bus_id ≡ some name)
      × (ldd_match name driver ≡ true ↔ ((rest : List ℕ) × (name ≡ driver ++ rest)))
unfolding register_ldd_device ldd_match
registered_match size refused name driver h short = (
  elim refused as (λ r. string_in (register_ldd_device size r name).1.bus_id ≡ some name) [
    | none ↦ bus_id_read_back size name h short
    | some e ↦ bus_id_read_back size name h short
  ],
  (prefix-same_start name driver, λ (rest, same). rw same (same_start-prefix driver rest)),
)
