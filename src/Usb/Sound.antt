-- ===== src/Usb/Sound.antt =====
-- Each step of a device's life leads from a sound state to a sound state.
use linux_device_driver.Common.{
  ℕ, suc, ◌+◌, ◌-◌, ◌%◌, ◌^◌, ◌≡◌, ◌≤◌, ◌<◌, Bool, true, false, some, if◌then◌else◌, arith, refl,
  sym, ap, ◌∙◌, inl, inr, Bool-cases, ◌==◌,
}
use linux_device_driver.Kernel.{enodev, ok, err, done, Mem}
use linux_device_driver.Kernel.Ledger.{Balanced}
use linux_device_driver.Kernel.Clash.{done_injective, ok-ne-err, true-ne-false}
use linux_device_driver.Usb.{
  Skel, World, get_ref, put_ref, skel_open, skel_release, skel_disconnect,
}
use linux_device_driver.Usb.Refs.{buffers, put_ref_last, put_ref_more}
use linux_device_driver.Usb.Life.{
  State, Step, opened, refused, released, disconnected, Reach, here, next, bound_refs, Alive, Sound,
}

-- What each operation answers in a sound state.
pub open_unbound :
    (w : World) → w.minor ≡ w.intfdata → w.intfdata ≡ false → skel_open w ≡ done (err enodev, w)
unfolding skel_open
open_unbound w same unbound = simp (same, unbound) refl

module _ (first : Mem) (udev : ℕ) where
  -- One reference less than the structure counts.
  drop_ref :
      (w : World) (n : ℕ) (d : Skel)
      → w.dev ≡ some d
      → n + bound_refs w + 1 ≡ d.kref
      → d.kref < 2 ^ 32
      → d.bulk_in_buffer ≡ true
      → Balanced first w.mem 0 2
      → w.udev_refs ≡ udev + 1
      → w.minor ≡ w.intfdata
      → (w' : World) × (put_ref w ≡ done w') × Sound first udev (record { world = w'; files = n })
  drop_ref w n d there counted word buffer held refs same = elim (Bool-cases (d.kref == 1)) [
    | inl one ↦
        let last : d.kref ≡ 1 = ground (arith, one) in
        let (w', e, gone, refs', freed, i, m) = put_ref_last d w last there in
        let two : 1 + buffers d ≡ 2 = ground (arith, buffer) in
        let unbound : w.intfdata ≡ false = not_bound w.intfdata n (omega (arith, counted, last)) in
        (
          w',
          e,
          (
            m ∙ same ∙ sym i,
            inr (record {
              gone = gone;
              no_files = omega (arith, counted, last);
              unbound = i ∙ unbound;
              balanced = record { balance = omega (arith, held, freed, two) };
              udev_back = omega (arith, refs, refs');
            }),
          ),
        )
    | inr more ↦
        let many : 1 < d.kref = ground (arith, more, counted) in
        (
          record w { dev = some (record d { kref = d.kref - 1 }) },
          put_ref_more d w many word there,
          (
            same,
            inl (
              record d { kref = d.kref - 1 },
              record {
                there = refl;
                counted = omega (arith, counted);
                in_use = omega (arith, many);
                word = omega (arith, word);
                has_buffer = buffer;
                held = held;
                udev_held = refs;
              },
            ),
          ),
        )
  ]
    where
      not_bound : (i : Bool) (n : ℕ) → n + (if i then 1 else 0) ≡ 0 → i ≡ false
      not_bound i n e = ground (arith, e)

  pub open_bound :
      (s : State) (d : Skel)
      → Alive first udev s d
      → s.world.minor ≡ s.world.intfdata
      → s.world.intfdata ≡ true
      → skel_open s.world
        ≡ done (ok 0, record s.world { dev = some (record d { kref = (d.kref + 1) % 2 ^ 32 }) })
  unfolding skel_open get_ref
  open_bound s d v same bound = simp (same, bound, v.there, get_ref) refl

  pub release_held :
      (s : State) (n : ℕ) (d : Skel)
      → Alive first udev s d
      → s.world.minor ≡ s.world.intfdata
      → s.files ≡ suc n
      → (w : World) × (skel_release s.world ≡ done (ok 0, w))
        × Sound first udev (record { world = w; files = n })
  unfolding skel_release
  release_held s n d v same some_open =
      let (w, e, sound) =
        drop_ref s.world n d v.there (omega (arith, v, some_open)) v.word v.has_buffer v.held
          v.udev_held same in
      (w, rw e refl, sound)

  pub disconnect_bound :
      (s : State) (d : Skel)
      → Alive first udev s d
      → s.world.intfdata ≡ true
      → (w : World) × (skel_disconnect s.world ≡ done w) × Sound first udev (record s { world = w })
  unfolding skel_disconnect
  disconnect_bound s d v bound =
      drop_ref (record s.world { intfdata = false; minor = false }) s.files d v.there
        (omega (arith, v, one_bound s.world bound)) v.word v.has_buffer v.held v.udev_held refl
    where
      one_bound : (w : World) → w.intfdata ≡ true → bound_refs w ≡ 1
      one_bound w e = ground (arith, e)

  pub bound_holder :
      (s : State) → Sound first udev s → s.world.intfdata ≡ true → (d : Skel) × Alive first udev s d
  bound_holder s v bound = elim v.1 [
    | inl a ↦ a
    | inr g ↦ absurd (true-ne-false (sym bound ∙ g.unbound))
  ]

  pub file_holder :
      (s : State) → Sound first udev s → 0 < s.files → (d : Skel) × Alive first udev s d
  file_holder s v some_open = elim v.1 [ inl a ↦ a | inr g ↦ absurd (omega (arith, g, some_open)) ]

  Step-Sound : {s t : State} → Step s t → Sound first udev s → Sound first udev t
  Step-Sound (opened {s} w few e) v = elim (Bool-cases s.world.intfdata) [
    | inl bound ↦
        let (d, a) = bound_holder s v bound in
        let same = ap (λ r. r.1) (done_injective (sym e ∙ open_bound s d a v.0 bound)) in
        rw same (
          v.0,
          inl (
            record d { kref = (d.kref + 1) % 2 ^ 32 },
            record {
              there = refl;
              counted = omega (arith, a, few, refs_le s.world);
              in_use = omega (arith, a, few, refs_le s.world);
              word = omega arith;
              has_buffer = a.has_buffer;
              held = a.held;
              udev_held = a.udev_held;
            },
          ),
        )
    | inr unbound ↦
        absurd
          (ok-ne-err (ap (λ r. r.0) (done_injective (sym e ∙ open_unbound s.world v.0 unbound))))
  ]
    where
      refs_le : (w : World) → bound_refs w ≤ 1
      refs_le w = ground arith
  Step-Sound (refused {s} w x e) v = elim (Bool-cases s.world.intfdata) [
    | inl bound ↦
        let (d, a) = bound_holder s v bound in
        absurd
          (ok-ne-err (sym (ap (λ r. r.0) (done_injective (sym e ∙ open_bound s d a v.0 bound)))))
    | inr unbound ↦ rw (ap (λ r. r.1) (done_injective (sym e ∙ open_unbound s.world v.0 unbound))) v
  ]
  Step-Sound (released {s} {n} w some_open e) v =
      let (d, a) = file_holder s v (omega (arith, some_open)) in
      let (w', f, sound) = release_held s n d a v.0 some_open in
      rw (ap (λ r. r.1) (done_injective (sym e ∙ f))) sound
  Step-Sound (disconnected {s} w bound e) v =
      let (d, a) = bound_holder s v bound in
      let (w', f, sound) = disconnect_bound s d a bound in rw (done_injective (sym e ∙ f)) sound

  pub Sound-Reach : {s t : State} → Sound first udev s → Reach s t → Sound first udev t
  Sound-Reach v here = v
  Sound-Reach v (next p q) = Step-Sound q (Sound-Reach v p)
