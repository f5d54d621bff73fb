-- ===== src/Sculld/Trim.antt =====
-- `sculld_trim` gives back every block of a device, or leaves a mapped device alone.
use linux_device_driver.Common.{
  ℕ, ◌+◌, ◌≡◌, ◌<◌, inl, inr, refl, none, some, List, [], ◌∷◌, arith, All, ltb, Bool-cases,
}
use linux_device_driver.Kernel.{ok, err, ebusy, done, Ret, Mem, Holds, kfree}
use linux_device_driver.Kernel.Ledger.{Moves, Balanced}
use linux_device_driver.Scull.Device.{Qset, item_blocks, slot_blocks, blocks, QsetFits, IsValid}
use linux_device_driver.Scull.Device.Trim.{free_slots-done}
use linux_device_driver.Chain.{free_next, held}
use linux_device_driver.Chain.AsScull.{as_scull}
use linux_device_driver.Sculld.{Dev, Config, quantum_of, free_data, trim}

free_data-done :
    (quantum qset : ℕ) (q : Qset) (m : Mem)
    → QsetFits quantum qset q
    → (m' : Mem) × (freed : ℕ) × (free_data qset q m ≡ done m')
      × Moves m m' 0 freed
      × (freed + 1 ≡ item_blocks q)
unfolding free_data kfree
free_data-done quantum qset none m h = (m, 0, refl, omega arith, refl)
free_data-done quantum qset (some a) m h =
    let (m', e, v) = free_slots-done qset a m h.0 in
    (kfree m', slot_blocks a + 1, rw e refl, omega (arith, v), omega arith)

free_next-done :
    (quantum qset : ℕ) (next : List Qset) (m : Mem)
    → All (QsetFits quantum qset) next
    → (m' : Mem) × (free_next (free_data qset) next m ≡ done m') × Moves m m' 0 (blocks next)
unfolding free_next kfree
free_next-done quantum qset [] m h = (m, refl, omega arith)
free_next-done quantum qset (q ∷ next) m h =
    let (m1, n, e1, v1, n_is) = free_data-done quantum qset q m h.0 in
    let (m', e, v) = free_next-done quantum qset next (kfree m1) h.1 in
    (m', rw e1 e, omega (arith, v1, v, n_is))

-- What a trim leaves: an emptied device with the module's sizes and its blocks given back, or, while
-- the device is mapped, nothing changed and an error.
pub data Trimmed (g : Config) (dev : Dev) (m : Mem) : Ret × Dev × Mem → Type 0 where
  emptied :
      (m' : Mem)
      → dev.vmas ≡ 0
      → Balanced m m' (held dev.store) 1
      → Trimmed g dev m (
        ok 0,
        record dev {
          store = record { array = none; next = []; qset = g.qset; size = 0 };
          order = g.order;
        },
        m',
      )
  mapped : 0 < dev.vmas → Trimmed g dev m (err ebusy, dev, m)

-- On a valid device `sculld_trim` is defined; it gives back exactly the blocks that the device held
-- beside itself and leaves it empty, or refuses and leaves everything as it was while the device is
-- mapped.
pub trim-Trimmed :
    (page : ℕ) (g : Config) (dev : Dev) (m : Mem)
    → IsValid (as_scull (quantum_of page dev) dev.store)
    → Holds (Trimmed g dev m) (trim g dev m)
unfolding trim
trim-Trimmed page g dev m valid = elim (Bool-cases (ltb 0 dev.vmas)) [
  | inl busy ↦ rw (busy, Holds) (mapped (ground (arith, busy)))
  | inr idle ↦
      let quantum = quantum_of page dev in
      let (m1, n, e1, v1, n_is) =
        free_data-done quantum dev.store.qset dev.store.array m valid.shaped.0 in
      let (m', e, v) = free_next-done quantum dev.store.qset dev.store.next m1 valid.shaped.1 in
      rw (idle, e1, e) (emptied m' (ground (arith, idle)) (omega (arith, v1, v, n_is)))
]
