-- ===== src/Scull/Transfer/Write/Copy.antt =====
-- The copy into one quantum: `copy_from_user` and what follows it in `scull_write`.
use linux_device_driver.Common.{
  get_elem?-take, ℕ, ◌+◌, ◌≡◌, ◌≤◌, ◌<◌, refl, ap, ◌∙◌, ◌⊎◌, inl, inr, false, Option, some, List,
  arith, length, get_elem?, set, take, splice, All, Bool-cases, ltb, ◌==◌, if◌then◌else◌, max,
  length-take, length-splice, get_elem?-splice_in, get_elem?-splice_out, length-set, All-set,
}
use linux_device_driver.Kernel.{efault, Kernel, Call, Mem, Holds}
use linux_device_driver.Scull.Device.{Quantum, Slots, Dev, Place, SlotFits, QsetFits}
use linux_device_driver.Scull.Device.Follow.{byte_at}
use linux_device_driver.Scull.Transfer.{Reply, clip, copy_in}
use linux_device_driver.Scull.Transfer.View.{
  clip-add-le, clip-le, byte_at-set_item, item_of-set_self, slot_of-set_self, slot_of-set_ne,
}
use linux_device_driver.Scull.Transfer.Write.{Outside, Wrote, Failed, Effect, Ready}

larger : (a b : ℕ) → (if ltb a b then b else a) ≡ max a b
larger a b = ground arith

module _ (k : Kernel) (c : Call) (f_pos : ℕ) (p : Place) (buf : List ℕ) (m : Mem) (n : ℕ)
    (dev : Dev) (m' : Mem) (a : Slots) (b : Quantum) (ready : Ready p m n dev m' a b) where
  abbrev room : ℕ
  room = clip dev.quantum p.q_pos (length buf)

  abbrev src : List ℕ
  src = k.copied c.left (take room buf)

  length-src : length src ≡ room
  length-src = omega (
    arith,
    k.length-copied c.left (take room buf),
    length-take room buf,
    clip-le dev.quantum p.q_pos (length buf),
  )

  fits : p.q_pos + length src ≤ length b
  fits =
      omega (
        arith,
        length-src,
        ready.block_fits,
        clip-add-le dev.quantum p.q_pos (length buf) ready.q_in,
      )

  s_inside : p.s_pos < length a
  s_inside = omega (arith, ready.s_in, ready.slots_fit)

  abbrev block_after : Quantum
  block_after = splice b p.q_pos src

  abbrev items_after : List (Option Slots)
  items_after = set dev.items p.item (some (set a p.s_pos (some block_after)))

  after_shaped : All (QsetFits dev.quantum dev.qset) items_after
  after_shaped = All-set (QsetFits dev.quantum dev.qset) dev.items p.item _ ready.shaped (
    omega (arith, ready.slots_fit, length-set a p.s_pos (some (splice b p.q_pos src))),
    All-set (SlotFits dev.quantum) a p.s_pos _ ready.all_fit
        (omega (arith, ready.block_fits, length-splice b p.q_pos src)),
  )

  block_out :
      (o v : ℕ)
      → (o < p.q_pos) ⊎ (p.q_pos + room ≤ o)
      → get_elem? b o ≡ some v
      → get_elem? block_after o ≡ some v
  block_out o v out e = rw (get_elem?-splice_out b p.q_pos src o (omega (arith, length-src))) e

  offset_out :
      (j s o : ℕ)
      → Outside room p j s o
      → p.item ≡ j
      → p.s_pos ≡ s
      → (o < p.q_pos) ⊎ (p.q_pos + room ≤ o)
  offset_out j s o (inl h) ei es = absurd (h ei)
  offset_out j s o (inr (inl h)) ei es = absurd (h es)
  offset_out j s o (inr (inr h)) ei es = h

  after_keeps :
      (j s o v : ℕ)
      → Outside room p j s o
      → byte_at dev.items j s o ≡ some v
      → byte_at items_after j s o ≡ some v
  after_keeps j s o v out e =
      byte_at-set_item dev.items p.item _ j s o v ready.item_in
        (λ same_item old. elim (Bool-cases (p.s_pos == s)) [
          | inr other ↦
              rw (slot_of-set_ne a p.s_pos s (some block_after) (ground arith))
                (ready.slots_keep s o v old)
          | inl here ↦
              let here' : p.s_pos ≡ s = ground arith in
              rw (← here', slot_of-set_self a p.s_pos (some block_after) s_inside)
                (block_out o v (offset_out j s o out same_item here')
                  (ready.block_keeps o v (rw here' old)))
        ])
        e

  after_holds :
      (j : ℕ) → j < room → byte_at items_after p.item p.s_pos (p.q_pos + j) ≡ get_elem? src j
  after_holds j h =
      rw
        (
          item_of-set_self dev.items p.item (some (set a p.s_pos (some block_after))) ready.item_in,
          slot_of-set_self a p.s_pos (some block_after) s_inside,
        )
        (rw
          (get_elem?-splice_in b p.q_pos src (p.q_pos + j) fits (omega arith)
            (omega (arith, length-src)))
          (ap (get_elem? src) (omega arith)))

  whole_src : c.left ≡ 0 → (j : ℕ) → j < room → get_elem? src j ≡ get_elem? buf j
  whole_src e j h = rw (e, k.copied_all (take room buf)) (get_elem?-take room j buf h)

  in_bounds : ltb (length b) (p.q_pos + clip dev.quantum p.q_pos (length buf)) ≡ false
  in_bounds = ground (arith, fits, length-src)

  copied_effect :
      (r : Reply)
      → r.dev.items ≡ items_after
      → r.dev.quantum ≡ dev.quantum
      → r.dev.qset ≡ dev.qset
      → r.mem ≡ m'
      → Wrote k c f_pos p buf room dev r ⊎ Failed k c f_pos p buf dev r
      → Effect k c f_pos p buf m n dev r
  copied_effect r ei eq es em w = record {
    quantum_same = eq;
    qset_same = es;
    shaped = rw ei after_shaped;
    balanced = rw (ei, em) (ready.balanced block_after);
    kept = λ j s o v out e. rw ei (after_keeps j s o v out e);
    outcome = w;
  }

  -- The copy is inside its quantum, and ends with the bytes written or with `-EFAULT`.
  pub copy_in-Effect : Holds (Effect k c f_pos p buf m n dev) (copy_in k c f_pos p buf dev a m' b)
  unfolding copy_in
  copy_in-Effect = rw in_bounds (elim (Bool-cases (c.left == 0)) [
    | inl whole ↦
        let left0 : c.left ≡ 0 = ground arith in
        rw whole (
          copied_effect _ refl refl refl refl (
            inl (record {
              ret_is = refl;
              pos_is = refl;
              size_is = larger dev.size (f_pos + room);
              bytes = λ j h. after_holds j h ∙ whole_src left0 j h;
            })))
    | inr faulted ↦ rw faulted (
        copied_effect _ refl refl refl refl (
          inr (record {
            error = efault;
            cause = inr (inr (refl, (λ e. ground arith)));
            ret_is = refl;
            pos_is = refl;
            size_is = refl;
          })))
  ])
