-- ===== src/Scull/Device/Trim.antt =====
-- `scull_trim` gives back every block of the store, and leaves it empty.
use linux_device_driver.Common.{
  ℕ, zero, suc, ◌≡◌, refl, none, some, List, [], ◌∷◌, arith, length, All,
}
use linux_device_driver.Kernel.{done, Mem, Holds, kfree, kfree?}
use linux_device_driver.Kernel.Ledger.{Moves}
use linux_device_driver.Scull.Device.{
  Slots, Qset, Dev, Config, free_slots, free_items, trim, slot_blocks, blocks, QsetFits, IsValid,
}

-- Freeing the entries of a whole array succeeds, and gives back its quanta.
pub free_slots-done :
    (n : ℕ) (a : Slots) (m : Mem)
    → length a ≡ n
    → (m' : Mem) × (free_slots n a m ≡ done m') × Moves m m' 0 (slot_blocks a)
unfolding free_slots kfree?
free_slots-done zero [] m h = (m, refl, omega arith)
free_slots-done zero (q ∷ a) m h = absurd (omega arith)
free_slots-done (suc n) [] m h = absurd (omega arith)
free_slots-done (suc n) (none ∷ a) m h = free_slots-done n a m (omega arith)
free_slots-done (suc n) (some b ∷ a) m h =
    let (m', e, v) = free_slots-done n a (kfree m) (omega arith) in (m', e, omega arith)

free_items-done :
    (quantum qset : ℕ) (items : List Qset) (m : Mem)
    → All (QsetFits quantum qset) items
    → (m' : Mem) × (free_items qset items m ≡ done m') × Moves m m' 0 (blocks items)
unfolding free_items kfree
free_items-done quantum qset [] m h = (m, refl, omega arith)
free_items-done quantum qset (none ∷ qs) m h =
    let (m', e, v) = free_items-done quantum qset qs (kfree m) h.1 in (m', e, omega arith)
free_items-done quantum qset (some a ∷ qs) m h =
    let (m1, e1, v1) = free_slots-done qset a m h.0.0 in
    let (m', e, v) = free_items-done quantum qset qs (kfree (kfree m1)) h.1 in
    (m', rw e1 e, omega arith)

-- On a valid device `scull_trim` is defined, gives back exactly the blocks that the device held,
-- and leaves it empty with the module's current sizes.
pub trim_lem :
    (c : Config) (dev : Dev) (m : Mem)
    → IsValid dev
    → Holds
        (λ r.
          (r.0 ≡ record dev { items = []; size = 0; quantum = c.quantum; qset = c.qset })
          × Moves m r.1 0 (blocks dev.items))
        (trim c dev m)
unfolding trim
trim_lem c dev m v =
    let (m', e, moved) = free_items-done dev.quantum dev.qset dev.items m v.shaped in
    rw e (refl, moved)

-- The same with the result named.
pub trim-done :
    (c : Config) (dev : Dev) (m : Mem)
    → IsValid dev
    → (r : Dev × Mem) × (trim c dev m ≡ done r)
      × (r.0 ≡ record dev { items = []; size = 0; quantum = c.quantum; qset = c.qset })
      × Moves m r.1 0 (blocks dev.items)
unfolding trim
trim-done c dev m v =
    let (m', e, moved) = free_items-done dev.quantum dev.qset dev.items m v.shaped in
    (
      (record dev { items = []; size = 0; quantum = c.quantum; qset = c.qset }, m'),
      rw e refl,
      refl,
      moved,
    )
