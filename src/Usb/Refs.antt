-- ===== src/Usb/Refs.antt =====
-- Dropping a reference to the structure: the last one, and one of several.
use linux_device_driver.Common.{
  ℕ, ◌+◌, ◌-◌, ◌%◌, ◌^◌, ◌≡◌, ◌<◌, false, none, some, if◌then◌else◌, ◌==◌, arith, refl, Bool-cases,
  inl, inr,
}
use linux_device_driver.Kernel.{done, kfree}
use linux_device_driver.Kernel.Ledger.{Moves}
use linux_device_driver.Usb.{Skel, World, put_ref, skel_delete}

abbrev pub buffers : Skel → ℕ
buffers s = if s.bulk_in_buffer then 1 else 0

skel_delete-Moves : (s : Skel) (w : World) → Moves w.mem (skel_delete s w).mem 0 (1 + buffers s)
unfolding skel_delete kfree
skel_delete-Moves s w = elim (Bool-cases s.bulk_in_buffer) [
  | inl b ↦ simp b (omega arith)
  | inr b ↦ simp b (omega arith)
]

-- The last reference frees the structure and its buffer, and the reference to the USB device.
pub put_ref_last :
    (s : Skel) (w : World)
    → s.kref ≡ 1
    → w.dev ≡ some s
    → (w' : World) × (put_ref w ≡ done w')
      × (w'.dev ≡ none)
      × (w'.udev_refs ≡ w.udev_refs - 1)
      × Moves w.mem w'.mem 0 (1 + buffers s)
      × (w'.intfdata ≡ w.intfdata)
      × (w'.minor ≡ w.minor)
unfolding put_ref skel_delete
put_ref_last s w one e =
    let s' = record s { kref = 0 } in
    (skel_delete s' w, simp (e, one, put_ref) refl, refl, refl, skel_delete-Moves s' w, refl, refl)

pub put_ref_more :
    (s : Skel) (w : World)
    → 1 < s.kref
    → s.kref < 2 ^ 32
    → w.dev ≡ some s
    → put_ref w ≡ done (record w { dev = some (record s { kref = s.kref - 1 }) })
unfolding put_ref
put_ref_more s w more word e = simp (e, down, kept, put_ref) refl
  where
    down : (s.kref + (2 ^ 32 - 1)) % 2 ^ 32 ≡ s.kref - 1
    down = omega arith

    kept : ((s.kref - 1) == 0) ≡ false
    kept = ground arith
