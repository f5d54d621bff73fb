-- ===== src/Bus/Tests.antt =====
-- The bus with the devices of sculld, of which "sculld0" is the first.
use linux_device_driver.Common.{ℕ, ◌≡◌, ◌≤◌, ◌<◌, some, List, [], ◌∷◌, arith, length}
use linux_device_driver.Kernel.{enomem, ok, err}
use linux_device_driver.Bus.{string_in, ldd_hotplug}
use linux_device_driver.Bus.Load.{ldd_hotplug_lem}

abbrev sculld : List ℕ
sculld = 115 ∷ 99 ∷ 117 ∷ 108 ∷ 108 ∷ 100 ∷ []

abbrev sculld0 : List ℕ
sculld0 = 115 ∷ 99 ∷ 117 ∷ 108 ∷ 108 ∷ 100 ∷ 48 ∷ []

ldd_hotplug_lem_example :
    let (r, buffer) = ldd_hotplug (86 ∷ 61 ∷ 49 ∷ []) (9 ∷ 9 ∷ 9 ∷ 9 ∷ 9 ∷ []) in
    (length buffer ≡ length {A = ℕ} (9 ∷ 9 ∷ 9 ∷ 9 ∷ 9 ∷ []))
    × (length {A = ℕ} (9 ∷ 9 ∷ 9 ∷ 9 ∷ 9 ∷ []) ≤ length {A = ℕ} (86 ∷ 61 ∷ 49 ∷ [])
        → r ≡ err enomem)
    × (length {A = ℕ} (86 ∷ 61 ∷ 49 ∷ []) < length {A = ℕ} (9 ∷ 9 ∷ 9 ∷ 9 ∷ 9 ∷ [])
        → (r ≡ ok 0) × (string_in buffer ≡ some (86 ∷ 61 ∷ 49 ∷ [])))
ldd_hotplug_lem_example = ldd_hotplug_lem (86 ∷ 61 ∷ 49 ∷ []) (9 ∷ 9 ∷ 9 ∷ 9 ∷ 9 ∷ []) (
  (λ e. absurd (omega (arith, e))),
  ((λ e. absurd (omega (arith, e))), ((λ e. absurd (omega (arith, e))), tt)),
)
