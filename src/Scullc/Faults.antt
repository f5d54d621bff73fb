-- ===== src/Scullc/Faults.antt =====
-- Writes behind the first quantum of an item.
use linux_device_driver.Common.{
  ℕ, ◌+◌, ◌*◌, ◌/◌, ◌%◌, ◌^◌, ◌≡◌, ◌≤◌, ◌<◌, ◌∙◌, sym, ap, subst, inl, inr, refl, Bool, true, false,
  Option, none, some, List, ◌∷◌, arith, length, replicate, length-replicate, get_elem?-some, ltb,
  lt→ltb, All, All_get, All-replicate, mod_small, mod_lt_of_pos,
}
use linux_device_driver.Kernel.{done, oops, Kernel, Call, Mem, kmalloc, ◌>>=◌}
use linux_device_driver.Kernel.Clash.{true-ne-false}
use linux_device_driver.Scull.Device.{
  Place, Slots, Qset, Quantum, int_max, IsValid, SlotFits, QsetFits,
}
use linux_device_driver.Scull.Device.Locate.{place_of, place_of-IsPlace, locate_lem}
use linux_device_driver.Scull.Device.Follow.{follow-Followed}
use linux_device_driver.Scull.Transfer.{claim_slots, claim_quantum}
use linux_device_driver.Scull.Transfer.View.{slot_cases}
use linux_device_driver.Chain.{Store, copy_in, store, store_item, write_at}
use linux_device_driver.Chain.Walk.{walk-Walked}
use linux_device_driver.Chain.AsScull.{as_scull}
use linux_device_driver.Scullc.{Dev, Config, is_stale, clip_write, cache_alloc, write}
use linux_device_driver.Scullc.Transfers.{cache_alloc-claim}

-- Behind the end of the quantum the difference is negative, and clips nothing.
clip_write_far :
    (quantum q_pos count : ℕ)
    → quantum < q_pos
    → q_pos < 2 ^ 32
    → count < 2 ^ 63
    → clip_write quantum q_pos count ≡ count
unfolding clip_write
clip_write_far quantum q_pos count h w small = ground arith

module _ (k : Kernel) (grants_all : (n : ℕ) → k.grants n ≡ true) (g : Config)
    (fresh : g.quantum ≡ g.object) (c : Call) (f_pos : ℕ) (buf : List ℕ) (n : ℕ) (p : Place)
    (behind : g.object < p.q_pos + n) where
  copy_overruns :
      (s : Store) (m : Mem) (a : Slots) (b : Quantum)
      → length b ≡ g.object
      → copy_in k n c f_pos p buf s a m b ≡ oops
  unfolding copy_in
  copy_overruns s m a b sized =
      let short : ltb (length b) (p.q_pos + n) ≡ true = lt→ltb _ _ (omega (arith, sized, behind)) in
      rw short refl

  new_object :
      (m : Mem) → (m' : Mem) × (cache_alloc k g none m ≡ done (some (replicate g.object 0), m'))
  unfolding claim_quantum kmalloc
  new_object m =
      let granted = grants_all m.requests in
      ((kmalloc k m).1, cache_alloc-claim k g fresh none m ∙ rw granted refl)

  old_object : (b : Quantum) (m : Mem) → cache_alloc k g (some b) m ≡ done (some b, m)
  unfolding cache_alloc
  old_object b m = refl

  store_overruns :
      (s : Store) (m : Mem) (a : Slots)
      → length a ≡ s.qset
      → All (SlotFits g.object) a
      → p.s_pos < s.qset
      → store k (cache_alloc k g) n c f_pos p buf s m a ≡ oops
  unfolding store
  store_overruns s m a whole sized inside =
      elim (slot_cases a p.s_pos (omega (arith, whole, inside))) [
        | inl empty ↦
            let (m', got) = new_object m in
            rw (empty, ◌>>=◌, got)
              (copy_overruns s m' a (replicate g.object 0) (length-replicate {A = ℕ} g.object 0))
        | inr (b, at) ↦
            rw (at, ◌>>=◌, old_object b m)
              (copy_overruns s m a b (All_get (SlotFits g.object) a p.s_pos sized at))
      ]

  claimed : (qset : ℕ) (m : Mem) → (claim_slots k qset none m).0 ≡ some (replicate qset none)
  unfolding claim_slots kmalloc
  claimed qset m = rw (grants_all m.requests) refl

  item_overruns :
      (s : Store) (m : Mem) (q : Qset)
      → QsetFits g.object s.qset q
      → p.s_pos < s.qset
      → store_item k (cache_alloc k g) n c f_pos p buf s m q ≡ oops
  unfolding store_item claim_slots
  item_overruns s m (some a) fits inside = store_overruns s m a fits.0 fits.1 inside
  item_overruns s m none fits inside =
      rw (store_item, claimed s.qset m)
        (store_overruns s _ (replicate s.qset none)
          (length-replicate {A = Option Quantum} s.qset none)
          (All-replicate (SlotFits g.object) s.qset none tt) inside)

  -- From the walk on.
  run_overruns :
      (s : Store) (m : Mem)
      → All (QsetFits g.object s.qset) (s.array ∷ s.next)
      → p.s_pos < s.qset
      → write_at k (cache_alloc k g) n c s m f_pos p buf ≡ oops
  unfolding write_at
  run_overruns s m shaped inside = elim (walk-Walked k p.item s.array s.next m) [
    | inr (undefined, (i, refused)) ↦ absurd (true-ne-false (sym (grants_all i) ∙ refused))
    | inl (next, m', e, f) ↦
        let v = follow-Followed k g.object s.qset p.item (s.array ∷ s.next) m in
        let (q, there) = get_elem?-some (s.array ∷ next) p.item (
          subst (λ (r : Bool × List Qset × Mem). p.item < length r.1) f
            (v.reached (ap (λ (r : Bool × List Qset × Mem). r.0) f))) in
        let fits =
          All_get (QsetFits g.object s.qset) (s.array ∷ next) p.item
            (subst (λ (r : Bool × List Qset × Mem). All (QsetFits g.object s.qset) r.1) f
              (v.shaped shaped))
            there in
        rw (e, ◌>>=◌, there) (item_overruns (record s { next = next }) m' q fits inside)
  ]

-- A write of some bytes whose offset in the item is greater than a quantum, on a valid device that was
-- not trimmed, with the quantum that it and the cache were made with and with memory for all that it
-- asks for, runs past the end of a quantum: the offset in the item is taken for the offset in the
-- quantum. No signal comes, the count is below 2 ^ 63, and the item's number fits an int.
pub later_quantum_overruns :
    (k : Kernel) (g : Config) (c : Call) (dev : Dev) (m : Mem) (f_pos : ℕ) (buf : List ℕ)
    → ((n : ℕ) → k.grants n ≡ true)
    → g.quantum ≡ g.object
    → dev.quantum ≡ g.object
    → dev.stale ≡ none
    → IsValid (as_scull dev.quantum dev.store)
    → c.interrupted ≡ false
    → 0 < length buf
    → length buf < 2 ^ 63
    → dev.quantum < f_pos % (dev.quantum * dev.store.qset)
    → f_pos / (dev.quantum * dev.store.qset) ≤ int_max
    → write k g c dev m f_pos buf ≡ oops
unfolding write is_stale
later_quantum_overruns k g c dev m f_pos buf grants_all fresh same live valid go some_bytes few
      behind fits =
    let size = dev.quantum * dev.store.qset in
    let spot = place_of dev.quantum dev.store.qset f_pos in
    let v = place_of-IsPlace dev.quantum dev.store.qset valid.some_bytes f_pos in
    let inner = mod_lt_of_pos f_pos size valid.some_bytes in
    let outer = mod_small (f_pos % size) size inner in
    let n =
      clip_write_far dev.quantum (f_pos % size) (length buf) behind
        (omega (arith, inner, valid.int_sized)) few in
    let shaped =
      subst (λ (o : ℕ). All (QsetFits o dev.store.qset) (dev.store.array ∷ dev.store.next)) same
        valid.shaped in
    simp go (
      rw
        (
          locate_lem dev.quantum dev.store.qset valid.some_bytes f_pos valid.int_sized fits,
          live,
          outer,
          n,
        )
        (run_overruns k grants_all g fresh c f_pos buf (length buf)
          (record spot { q_pos = f_pos % size }) (omega (arith, same, behind, some_bytes)) dev.store
          m shaped v.s_in))
