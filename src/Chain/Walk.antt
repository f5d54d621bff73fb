-- ===== src/Chain/Walk.antt =====
-- The walk along the list of devices is that of `scull_follow`, unless memory runs out.
use linux_device_driver.Common.{ℕ, zero, suc, ◌≡◌, ◌⊎◌, inl, inr, refl, true, none, List, [], ◌∷◌}
use linux_device_driver.Kernel.{done, oops, Kernel, Mem, kmalloc}
use linux_device_driver.Kernel.Ledger.{Refused, kmalloc_cases}
use linux_device_driver.Scull.Device.{Qset, follow}
use linux_device_driver.Chain.{walk}

-- The walk reaches the item that `scull_follow` reaches in the list with the device at its head,
-- and leaves the same list and books; where a request is refused it is undefined, and
-- `scull_follow` finds nothing.
abbrev pub Walked : Kernel → ℕ → Qset → List Qset → Mem → Type 0
Walked k n q next m =
    ((next' : List Qset) × (m' : Mem) × (walk k n next m ≡ done (next', m'))
      × (follow k n (q ∷ next) m ≡ (true, q ∷ next', m')))
    ⊎ ((walk k n next m ≡ oops) × Refused k)

follow_grown :
    (k : Kernel) (n : ℕ) (m : Mem)
    → (kmalloc k m).0 ≡ true
    → follow k n [] m ≡ follow k n (none ∷ []) (kmalloc k m).1
unfolding follow
follow_grown k zero m granted = rw granted refl
follow_grown k (suc n) m granted = rw granted refl

pub walk-Walked : (k : Kernel) (n : ℕ) (q : Qset) (next : List Qset) (m : Mem) → Walked k n q next m
unfolding walk follow
walk-Walked k zero q next m = inl (next, m, refl, refl)
walk-Walked k (suc n) q (r ∷ next) m = elim (walk-Walked k n r next m) [
  | inl (next', m', e, f) ↦ inl (r ∷ next', m', rw e refl, rw f refl)
  | inr (e, refused) ↦ inr (rw e refl, refused)
]
walk-Walked k (suc n) q [] m = elim (kmalloc_cases k m) [
  | inr (e, v, refused) ↦ inr (rw e refl, refused)
  | inl (granted, v) ↦ elim (walk-Walked k n none [] (kmalloc k m).1) [
    | inl (next', m', e, f) ↦
        inl (none ∷ next', m', rw (granted, e) refl, rw (follow_grown k n m granted, f) refl)
    | inr (e, refused) ↦ inr (rw (granted, e) refl, refused)
  ]
]
