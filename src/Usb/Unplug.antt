-- ===== src/Usb/Unplug.antt =====
-- A device from its probe to the last reference to it.
use linux_device_driver.Common.{
  ℕ, ◌+◌, ◌-◌, ◌%◌, ◌^◌, ◌≡◌, ◌<◌, true, false, none, some, arith, sym, ◌∙◌, ◌⊎◌, inl, inr,
  Bool-cases,
}
use linux_device_driver.Kernel.{enodev, Ret, ok, err, done, Mem}
use linux_device_driver.Kernel.Ledger.{Balanced}
use linux_device_driver.Usb.{World, skel_open, skel_release, skel_disconnect}
use linux_device_driver.Usb.Probe.{Bound}
use linux_device_driver.Usb.Life.{State, Reach, bound_refs, Sound}
use linux_device_driver.Usb.Sound.{
  open_unbound, open_bound, release_held, disconnect_bound, bound_holder, file_holder, Sound-Reach,
}

-- A device that was probed, after any sequence of opens, releases and disconnects, with fewer than
-- 2 ^ 32 - 2 files when one is opened: whatever the kernel may ask next is defined, so that no
-- structure is used after it was freed; and once the device is disconnected and its last file
-- closed, the structure is gone and every block and reference that the probe took is given back.
pub probed_life :
    (before : World) (s t : State)
    → Bound before s.world
    → s.files ≡ 0
    → Reach s t
    → ((r : Ret × World) × (skel_open t.world ≡ done r))
      × (0 < t.files → (r : Ret × World) × (skel_release t.world ≡ done r))
      × (t.world.intfdata ≡ true → (w : World) × (skel_disconnect t.world ≡ done w))
      × (t.files ≡ 0
          → t.world.intfdata ≡ false
          → (t.world.dev ≡ none)
            × Balanced before.mem t.world.mem 0 0
            × (t.world.udev_refs ≡ before.udev_refs))
probed_life before s t b closed reach = (
  opens_defined (Bool-cases t.world.intfdata),
  (λ some_open.
      let (d, a) = file_holder first udev t v some_open in
      let (w, e, sound) =
        release_held first udev t (t.files - 1) d a v.0 (omega (arith, some_open)) in
      ((ok 0, w), e)),
  (λ bound.
      let (d, a) = bound_holder first udev t v bound in
      let (w, e, sound) = disconnect_bound first udev t d a bound in (w, e)),
  (λ none_open unbound. elim v.1 [
    | inl (d, a) ↦ absurd (omega (arith, a, none_open, no_refs t.world unbound))
    | inr g ↦ (g.gone, g.balanced, g.udev_back)
  ]),
)
  where
    first : Mem
    first = before.mem

    udev : ℕ
    udev = before.udev_refs

    one_bound : (w : World) → w.intfdata ≡ true → bound_refs w ≡ 1
    one_bound w e = ground (arith, e)

    no_refs : (w : World) → w.intfdata ≡ false → bound_refs w ≡ 0
    no_refs w e = ground (arith, e)

    sound_first : Sound first udev s
    sound_first = (
      b.reachable.1 ∙ sym b.reachable.0,
      inl (
        b.skel,
        record {
          there = b.there;
          counted = omega (arith, b, closed, one_bound s.world b.reachable.0);
          in_use = omega (arith, b);
          word = omega (arith, b);
          has_buffer = b.has_buffer;
          held = record { balance = omega (arith, b) };
          udev_held = b.got_udev;
        },
      ),
    )

    v : Sound first udev t
    v = Sound-Reach first udev sound_first reach

    opens_defined :
        (t.world.intfdata ≡ true) ⊎ (t.world.intfdata ≡ false)
        → (r : Ret × World) × (skel_open t.world ≡ done r)
    opens_defined (inl bound) =
        let (d, a) = bound_holder first udev t v bound in
        (
          (ok 0, record t.world { dev = some (record d { kref = (d.kref + 1) % 2 ^ 32 }) }),
          open_bound first udev t d a v.0 bound,
        )
    opens_defined (inr unbound) = ((err enodev, t.world), open_unbound t.world v.0 unbound)
