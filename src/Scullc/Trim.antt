-- ===== src/Scullc/Trim.antt =====
-- `sculc_trim`: what it gives back, what it leaks, and what a second trim does.
use linux_device_driver.Common.{
  ℕ, ◌+◌, ◌≡◌, refl, ap, ◌∙◌, none, some, List, [], ◌∷◌, arith, All, true,
}
use linux_device_driver.Kernel.{done, oops, ◌>>=◌, Mem, Holds, Holds-mono, kfree}
use linux_device_driver.Kernel.Ledger.{Moves, Balanced}
use linux_device_driver.Scull.Device.{
  Qset, Slots, item_blocks, slot_blocks, blocks, QsetFits, IsValid,
}
use linux_device_driver.Scull.Device.Trim.{free_slots-done}
use linux_device_driver.Chain.{free_next, held}
use linux_device_driver.Chain.AsScull.{as_scull}
use linux_device_driver.Scullc.{Dev, Config, any_set, free_data, trim}

-- The arrays of a list of items.
abbrev pub arrays : List Qset → ℕ
arrays [] = 0
arrays (none ∷ next) = arrays next
arrays (some a ∷ next) = 1 + arrays next

arrays_cons : (q : Qset) (next : List Qset) → arrays (q ∷ next) ≡ arrays (q ∷ []) + arrays next
arrays_cons none next = omega arith
arrays_cons (some a) next = omega arith

free_data-done :
    (quantum qset : ℕ) (q : Qset) (m : Mem)
    → QsetFits quantum qset q
    → (m' : Mem) × (freed : ℕ) × (free_data qset q m ≡ done m')
      × Moves m m' 0 freed
      × (freed + 1 + arrays (q ∷ []) ≡ item_blocks q)
unfolding free_data
free_data-done quantum qset none m h = (m, 0, refl, omega arith, omega arith)
free_data-done quantum qset (some a) m h =
    let (m', e, v) = free_slots-done qset a m h.0 in (m', slot_blocks a, e, v, omega arith)

free_next-done :
    (quantum qset : ℕ) (next : List Qset) (m : Mem)
    → All (QsetFits quantum qset) next
    → (m' : Mem) × (freed : ℕ) × (free_next (free_data qset) next m ≡ done m')
      × Moves m m' 0 freed
      × (freed + arrays next ≡ blocks next)
unfolding free_next kfree
free_next-done quantum qset [] m h = (m, 0, refl, omega arith, omega arith)
free_next-done quantum qset (q ∷ next) m h =
    let (m1, n1, e1, v1, n1_is) = free_data-done quantum qset q m h.0 in
    let (m', n, e, v, n_is) = free_next-done quantum qset next (kfree m1) h.1 in
    (
      m',
      n1 + 1 + n,
      rw (e1, ◌>>=◌, e) refl,
      omega (arith, v1, v),
      omega (arith, n1_is, n_is, arrays_cons q next),
    )

-- What a trim leaves: the first item with its array, whose quanta are gone, and one block leaked for
-- each array behind it.
pub record Leaked (g : Config) (dev : Dev) (m : Mem) (r : Dev × Mem) : Type 0 where
  pub left : r.0 ≡ record {
    store = record dev.store { next = []; qset = g.qset; size = 0 };
    quantum = g.quantum;
    stale = dev.store.array;
  }
  pub leak : Balanced m r.1 (held dev.store) (1 + arrays (dev.store.array ∷ dev.store.next))

-- On a valid device that was not trimmed, `sculc_trim` is defined and empties the device; it gives
-- back all quanta and items, and none of the arrays.
pub trim-Leaked :
    (g : Config) (dev : Dev) (m : Mem)
    → IsValid (as_scull dev.quantum dev.store)
    → dev.stale ≡ none
    → Holds (Leaked g dev m) (trim g dev m)
unfolding trim
trim-Leaked g dev m valid live =
    let (m1, n1, e1, v1, n1_is) =
      free_data-done dev.quantum dev.store.qset dev.store.array m valid.shaped.0 in
    let (m', n, e, v, n_is) =
      free_next-done dev.quantum dev.store.qset dev.store.next m1 valid.shaped.1 in
    rw (live, e1, e)
      (record {
        left = refl;
        leak = omega (arith, v1, v, n1_is, n_is, arrays_cons dev.store.array dev.store.next);
      })

trim_again :
    (g : Config) (dev : Dev) (m : Mem) (a : Slots) (r : Dev × Mem)
    → g.qset ≡ dev.store.qset
    → dev.store.array ≡ some a
    → any_set dev.store.qset a ≡ true
    → Leaked g dev m r
    → trim g r.0 r.1 ≡ oops
unfolding trim
trim_again g dev m a r same there used v =
    let kept : r.0.stale ≡ some a = ap (λ (d : Dev). d.stale) v.left ∙ there in
    let qset_is : r.0.store.qset ≡ dev.store.qset = ap (λ (d : Dev). d.store.qset) v.left ∙ same in
    rw (kept, qset_is, used) refl

-- A trim of a valid device with a quantum in its first item, which was not trimmed before and whose
-- quantum set has the size that the module's parameter still has, is defined, and a second trim with
-- the same parameters frees that quantum again.
pub trim_twice :
    (g : Config) (dev : Dev) (m : Mem) (a : Slots)
    → IsValid (as_scull dev.quantum dev.store)
    → dev.stale ≡ none
    → g.qset ≡ dev.store.qset
    → dev.store.array ≡ some a
    → any_set dev.store.qset a ≡ true
    → Holds (λ r. trim g r.0 r.1 ≡ oops) (trim g dev m)
trim_twice g dev m a valid live same there used =
    Holds-mono (Leaked g dev m) _ (trim g dev m) (λ r v. trim_again g dev m a r same there used v)
      (trim-Leaked g dev m valid live)
