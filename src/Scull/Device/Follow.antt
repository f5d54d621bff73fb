-- ===== src/Scull/Device/Follow.antt =====
-- `scull_follow` reaches an item, allocating the items that are missing.
use linux_device_driver.Common.{
  false, ℕ, zero, suc, ◌≡◌, ◌<◌, refl, inl, inr, Bool, true, Option, none, some, List, [], ◌∷◌,
  arith, length, All, get_elem?,
}
use linux_device_driver.Kernel.{Kernel, Mem, kmalloc}
use linux_device_driver.Kernel.Ledger.{Refused, Balanced, kmalloc_cases}
use linux_device_driver.Scull.Device.{Quantum, Qset, follow, blocks, QsetFits}

-- The byte at an offset of a quantum, or nothing where no quantum was allocated.
abbrev pub byte_of : Option Quantum → ℕ → Option ℕ
byte_of none q = none
byte_of (some b) q = get_elem? b q

abbrev pub slot_of : Qset → ℕ → Option Quantum
slot_of none s = none
slot_of (some a) s = elim (get_elem? a s) [ none ↦ none | some q ↦ q ]

abbrev pub item_of : List Qset → ℕ → Qset
item_of [] i = none
item_of (q ∷ qs) zero = q
item_of (q ∷ qs) (suc i) = item_of qs i

-- The byte that a store holds at an item, an index and an offset.
abbrev pub byte_at : List Qset → ℕ → ℕ → ℕ → Option ℕ
byte_at items i s q = byte_of (slot_of (item_of items i) s) q

-- What a walk to item `n` leaves: every item has its old contents, those added are empty, and the
-- books show one block for each.
pub record Followed (k : Kernel) (quantum qset n : ℕ) (items : List Qset) (m : Mem)
    (r : Bool × List Qset × Mem) : Type 0 where
  pub same : (i : ℕ) → item_of r.1 i ≡ item_of items i
  pub shaped : All (QsetFits quantum qset) items → All (QsetFits quantum qset) r.1
  pub reached : r.0 ≡ true → n < length r.1
  pub lost : r.0 ≡ false → Refused k × (item_of items n ≡ none)
  pub balanced : Balanced m r.2 (blocks items) (blocks r.1)

fresh_item : (i : ℕ) → item_of (none ∷ []) i ≡ none
fresh_item zero = refl
fresh_item (suc i) = refl

module _ (k : Kernel) (quantum qset : ℕ) where
  pub follow-Followed :
      (n : ℕ) (items : List Qset) (m : Mem) → Followed k quantum qset n items m (follow k n items m)
  unfolding follow
  follow-Followed zero (q ∷ qs) m = record {
    same = λ i. refl;
    shaped = λ h. h;
    reached = λ e. omega arith;
    lost = λ e. absurd (cc);
    balanced = omega arith;
  }
  follow-Followed zero [] m = elim (kmalloc_cases k m) [
    | inl (e, v) ↦ rw e (record {
      same = fresh_item;
      shaped = λ h. (tt, tt);
      reached = λ h. omega arith;
      lost = λ h. absurd (cc);
      balanced = omega (arith, v);
    })
    | inr (e, v, refused) ↦ rw e (record {
      same = λ i. refl;
      shaped = λ h. h;
      reached = λ h. absurd (cc);
      lost = λ h. (refused, refl);
      balanced = omega (arith, v);
    })
  ]
  follow-Followed (suc n) (q ∷ qs) m =
      let r = follow-Followed n qs m in
      record {
        same = elim [ zero ↦ refl | suc i ↦ r.same i ];
        shaped = λ h. (h.0, r.shaped h.1);
        reached = λ h. omega (arith, r.reached h);
        lost = r.lost;
        balanced = omega (arith, r.balanced);
      }
  follow-Followed (suc n) [] m = elim (kmalloc_cases k m) [
    | inl (e, v) ↦
        let r = follow-Followed n [] (kmalloc k m).1 in
        rw e (record {
          same = elim [ zero ↦ refl | suc i ↦ r.same i ];
          shaped = λ h. (tt, r.shaped tt);
          reached = λ h. omega (arith, r.reached h);
          lost = λ h. (r.lost h);
          balanced = omega (arith, v, r.balanced);
        })
    | inr (e, v, refused) ↦ rw e (record {
      same = λ i. refl;
      shaped = λ h. h;
      reached = λ h. absurd (cc);
      lost = λ h. (refused, refl);
      balanced = omega (arith, v);
    })
  ]
