-- ===== src/Scull/Access/Clones.antt =====
-- The devices that are cloned at open, scullpriv: one for each terminal, never two.
use linux_device_driver.Common.{
  ℕ, ◌≡◌, ◌≢◌, ◌⊎◌, inl, inr, false, List, [], ◌∷◌, arith, refl, sym, ap, ◌∙◌, ◌==◌, ==_iff, none,
  some, Option, Bool-cases, Option-cases,
}
use linux_device_driver.Kernel.{done, Kernel, Mem, Holds, Holds-done, Ret}
use linux_device_driver.Kernel.Ledger.{Moves, Refused, kmalloc_cases}
use linux_device_driver.Kernel.Clash.{none-ne-some, bind-done, done_injective}
use linux_device_driver.Scull.Device.{Dev, Config, trim, free_items}
use linux_device_driver.Scull.Access.{
  ListItem, find_key, put_key, lookfor_device, zeroed, c_open, Caller, trim_if,
}

-- The device of a new terminal: empty, with the module's sizes.
abbrev pub clone : Config → Dev
clone g = record zeroed { quantum = g.quantum; qset = g.qset }

find-put_self :
    (key : ℕ) (d e : Dev) (ls : List ListItem)
    → find_key key ls ≡ some e
    → find_key key (put_key key d ls) ≡ some d
unfolding find_key put_key
find-put_self key d e [] h = absurd (none-ne-some e h)
find-put_self key d e (l ∷ ls) h = elim (Bool-cases (l.key == key)) [
  | inl same ↦ simp same refl
  | inr other ↦ simp other (find-put_self key d e ls (simp other at h))
]

find-put_ne :
    (key other : ℕ) (d : Dev) (ls : List ListItem)
    → key ≢ other
    → find_key other (put_key key d ls) ≡ find_key other ls
unfolding find_key put_key
find-put_ne key other d [] h = refl
find-put_ne key other d (l ∷ ls) ne = elim (Bool-cases (l.key == key)) [
  | inl same ↦
      let differs : (l.key == other) ≡ false = ground (arith, ne, same) in simp (same, differs) refl
  | inr k_ne ↦ elim (Bool-cases (l.key == other)) [
    | inl hit ↦ simp (k_ne, hit) refl
    | inr miss ↦ simp (k_ne, miss) (find-put_ne key other d ls ne)
  ]
]

find-cons_self : (l : ListItem) (ls : List ListItem) → find_key l.key (l ∷ ls) ≡ some l.device
unfolding find_key
find-cons_self l ls = rw ((==_iff l.key l.key).1 refl) refl

find-cons_ne :
    (other : ℕ) (l : ListItem) (ls : List ListItem)
    → l.key ≢ other
    → find_key other (l ∷ ls) ≡ find_key other ls
unfolding find_key
find-cons_ne other l ls ne = ground (arith, ne)

-- What a look-up leaves: the device of the key, found from then on, the devices of other keys as
-- they were, and one block allocated exactly when the key was new and memory was granted.
pub Looked : Kernel → Config → ℕ → List ListItem → Mem → Option Dev × List ListItem × Mem → Type 0
Looked k g key ls m r =
    ((other : ℕ) → key ≢ other → find_key other r.1 ≡ find_key other ls)
    × (((r.0 ≢ none) × (r.0 ≡ find_key key ls) × (r.1 ≡ ls) × (r.2 ≡ m))
        ⊎ (((find_key key ls ≡ none)
              × (r.0 ≡ some (clone g))
              × (find_key key r.1 ≡ some (clone g))
              × Moves m r.2 1 0)
            ⊎ ((find_key key ls ≡ none) × (r.0 ≡ none) × (r.1 ≡ ls) × Moves m r.2 0 0 × Refused k)))

-- A look-up is defined, and it leaves what `Looked` says: the device of the key found or cloned, at
-- most one block allocated, nothing changed when memory is refused.
pub lookfor_device_lem :
    (k : Kernel) (g : Config) (key : ℕ) (ls : List ListItem) (m : Mem)
    → Holds (Looked k g key ls m) (lookfor_device k g key ls m)
unfolding lookfor_device trim free_items Looked
lookfor_device_lem k g key ls m = elim (Option-cases (find_key key ls)) [
  | inr (d, e) ↦
      simp (e, lookfor_device)
        ((λ other ne. refl), inl ((λ q. none-ne-some d (sym q)), refl, refl, refl))
  | inl absent ↦ elim (kmalloc_cases k m) [
    | inl (granted, moved) ↦
        simp (absent, granted, lookfor_device)
          (
            (λ other ne. find-cons_ne other (record { device = clone g; key = key }) ls ne),
            inr (
                inl
                  (refl, refl, find-cons_self (record { device = clone g; key = key }) ls, moved)),
          )
    | inr (refusal, moved, why) ↦
        simp (absent, refusal, lookfor_device)
          ((λ other ne. refl), inr (inr (refl, refl, refl, moved, why)))
  ]
]

-- An open of scullpriv from one terminal that is defined, whatever it returns, leaves the devices
-- of all other terminals as they were, also when it trims its own.
pub c_open_isolated :
    (k : Kernel) (g : Config) (u : Caller) (key other : ℕ) (ls : List ListItem) (m : Mem)
    (r : Ret × List ListItem × Mem)
    → key ≢ other
    → c_open k g u (some key) ls m ≡ done r
    → find_key other r.1 ≡ find_key other ls
unfolding c_open Looked
c_open_isolated k g u key other ls m r ne e =
    let (found, looked, f) = bind-done (lookfor_device k g key ls m) _ e in
    let others =
      (Holds-done (Looked k g key ls m) (lookfor_device k g key ls m)
          (lookfor_device_lem k g key ls m) looked).0
        other ne in
    elim (Option-cases found.0) [
      | inl absent ↦ ap (λ t. find_key other t.1) (sym (done_injective (simp absent at f))) ∙ others
      | inr (d, here) ↦
          let (t, _, h) = bind-done (trim_if u.write_only g d found.2) _ (simp here at f) in
          ap (λ t. find_key other t.1) (sym (done_injective h))
          ∙ find-put_ne key other t.0 found.1 ne
          ∙ others
    ]
