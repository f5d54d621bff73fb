-- ===== src/Sculld/Orders.antt =====
-- Quanta of several pages behind the first item.
use linux_device_driver.Common.{
  subst, Bool, div-mod-split, mod_lt_of_pos, ℕ, zero, suc, ◌+◌, ◌*◌, ◌/◌, ◌^◌, ◌≡◌, ◌≢◌, ◌≤◌, ◌<◌,
  ◌∙◌, sym, ap, inl, inr, refl, true, false, Option, none, some, List, [], ◌∷◌, arith, length,
  replicate, length-replicate, get_elem?, get_elem?-some, get_elem?-replicate, ltb, lt→ltb, ◌==◌,
}
use linux_device_driver.Kernel.{done, oops, Kernel, Call, Mem, kmalloc, ◌>>=◌}
use linux_device_driver.Kernel.Clash.{true-ne-false}
use linux_device_driver.Scull.Device.{Place, Slots, Qset, Quantum, int_max}
use linux_device_driver.Scull.Device.Locate.{place_of, place_of-IsPlace, locate_lem}
use linux_device_driver.Scull.Device.Follow.{item_of, follow-Followed}
use linux_device_driver.Scull.Transfer.{clip, claim_slots}
use linux_device_driver.Scull.Transfer.View.{item_of-get_elem?}
use linux_device_driver.Chain.{walk}
use linux_device_driver.Chain.Walk.{walk-Walked}
use linux_device_driver.Chain.{Store, copy_in, store, store_item, write_at}
use linux_device_driver.Sculld.{Dev, quantum_of, item_order, get_pages, write}

not_in_first : (pos size : ℕ) → 0 < size → size ≤ pos → pos / size ≢ 0
not_in_first pos size some_bytes behind z =
    omega
      (arith, div-mod-split pos size, mod_lt_of_pos pos size some_bytes, ap (λ (n : ℕ). n * size) z)

behind_first : (array : Qset) (n : ℕ) → n ≢ 0 → item_of (array ∷ []) n ≡ none
behind_first array zero h = absurd (h refl)
behind_first array (suc n) h = refl

module _ (page : ℕ) (k : Kernel) (grants_all : (n : ℕ) → k.grants n ≡ true) (c : Call) (f_pos : ℕ)
    (buf : List ℕ) where
  claimed : (qset : ℕ) (m : Mem) → (claim_slots k qset none m).0 ≡ some (replicate qset none)
  unfolding claim_slots kmalloc
  claimed qset m = rw (grants_all m.requests) refl

  one_page :
      (dev : Dev) (item : ℕ) (m : Mem)
      → item ≢ 0
      → (m' : Mem) × (get_pages page k (item_order dev item) none m
          ≡ done (some (replicate page 0), m'))
  unfolding get_pages kmalloc
  one_page dev item m behind =
      let other : (item == 0) ≡ false = ground (arith, behind) in
      let single : page * 2 ^ 0 ≡ page = omega arith in
      ((kmalloc k m).1, rw (other, grants_all m.requests, single) refl)

  page_overruns :
      (n : ℕ) (p : Place) (s : Store) (m : Mem) (a : Slots)
      → page < p.q_pos + n
      → copy_in k n c f_pos p buf s a m (replicate page 0) ≡ oops
  unfolding copy_in
  page_overruns n p s m a past =
      let short : ltb (length {A = ℕ} (replicate page 0)) (p.q_pos + n) ≡ true =
        lt→ltb _ _ (omega (arith, past, length-replicate {A = ℕ} page 0)) in
      rw short refl

  -- A new item gets an array, and a page that the copy runs past.
  new_item_overruns :
      (n : ℕ) (p : Place) (dev : Dev) (s : Store) (m : Mem)
      → p.item ≢ 0
      → p.s_pos < s.qset
      → page < p.q_pos + n
      → store_item k (get_pages page k (item_order dev p.item)) n c f_pos p buf s m none ≡ oops
  unfolding store_item store
  new_item_overruns n p dev s m behind s_in past =
      let slot : get_elem? (replicate {A = Option Quantum} s.qset none) p.s_pos ≡ some none =
        get_elem?-replicate s.qset p.s_pos none s_in in
      let (m', got) = one_page dev p.item (claim_slots k s.qset none m).1 behind in
      rw (store_item, claimed s.qset m, store, slot, ◌>>=◌, got)
        (page_overruns n p s m' (replicate s.qset none) past)

  -- The item that the walk of an empty device reaches behind the first is new.
  walk_to_new :
      (array : Qset) (n : ℕ) (m : Mem)
      → n ≢ 0
      → (next : List Qset) × (m' : Mem) × (walk k n [] m ≡ done (next, m'))
        × (get_elem? (array ∷ next) n ≡ some none)
  walk_to_new array n m behind = elim (walk-Walked k n array [] m) [
    | inr (undefined, (i, refused)) ↦ absurd (true-ne-false (sym (grants_all i) ∙ refused))
    | inl (next, m', e, f) ↦
        let fresh : item_of (array ∷ []) n ≡ none = behind_first array n behind in
        let v = follow-Followed k 0 0 n (array ∷ []) m in
        let (q, there) = get_elem?-some (array ∷ next) n (
          subst (λ (r : Bool × List Qset × Mem). n < length r.1) f
            (v.reached (ap (λ (r : Bool × List Qset × Mem). r.0) f))) in
        (
          next,
          m',
          e,
          there
              ∙ ap some (
                  sym (item_of-get_elem? (array ∷ next) n there)
                  ∙ ap (λ r. item_of r.1 n) (sym f)
                  ∙ v.same n
                  ∙ fresh),
        )
  ]

  -- A write behind the first item of an empty device, with quanta of several pages, runs past the
  -- single page that it gets, wherever it goes past the first page of its quantum.
  pub order_overruns :
      (dev : Dev) (m : Mem)
      → let size = quantum_of page dev * dev.store.qset in
        let p = place_of (quantum_of page dev) dev.store.qset f_pos in
        c.interrupted ≡ false
        → dev.store.next ≡ []
        → 0 < size
        → size ≤ int_max
        → size ≤ f_pos
        → f_pos / size ≤ int_max
        → page < p.q_pos + clip (quantum_of page dev) p.q_pos (length buf)
        → write page k c dev m f_pos buf ≡ oops
  unfolding write write_at
  order_overruns dev m go empty some_bytes int_sized behind fits past =
      let p = place_of (quantum_of page dev) dev.store.qset f_pos in
      let v = place_of-IsPlace (quantum_of page dev) dev.store.qset some_bytes f_pos in
      let not_first : p.item ≢ 0 =
        not_in_first f_pos (quantum_of page dev * dev.store.qset) some_bytes behind in
      let (next, m', e, there) = walk_to_new dev.store.array p.item m not_first in
      simp (go, empty)
        (rw
          (
            locate_lem (quantum_of page dev) dev.store.qset some_bytes f_pos int_sized fits,
            e,
            there,
          )
          (new_item_overruns (clip (quantum_of page dev) p.q_pos (length buf)) p dev
            (record dev.store { next = next }) m' not_first v.s_in past))
