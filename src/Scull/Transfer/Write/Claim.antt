-- ===== src/Scull/Transfer/Write/Claim.antt =====
-- The allocations before the copy: the array of an item, and the quantum.
use linux_device_driver.Common.{
  ℕ, ◌≡◌, ◌≤◌, ◌<◌, ◌/◌, ◌*◌, refl, ap, ◌⊎◌, inl, inr, Bool, true, none, some, List, [], arith,
  length, get_elem?, set, All, Bool-cases, get_elem?-some, All_get, All-set, All-replicate,
  replicate, length-replicate,
}
use linux_device_driver.Kernel.{
  Errno, erestartsys, enomem, err, Kernel, Call, Mem, Holds, Holds-mono, kmalloc,
}
use linux_device_driver.Kernel.Ledger.{Cause, Refused, Balanced, Moves, kmalloc_cases}
use linux_device_driver.Scull.Device.{
  Quantum, Slots, Qset, Dev, Place, SlotFits, QsetFits, blocks, item_blocks, int_max, IsValid,
  follow,
}
use linux_device_driver.Scull.Device.Follow.{byte_of, slot_of, item_of, Followed, follow-Followed}
use linux_device_driver.Scull.Device.Locate.{place_of, place_of-IsPlace, locate_lem}
use linux_device_driver.Scull.Transfer.{
  Reply, clip, store, store_item, write, claim_slots, claim_quantum,
}
use linux_device_driver.Scull.Transfer.View.{
  byte_at-set_item, blocks-set, slot_blocks-set-none, slot_blocks-set-some, slot_blocks-replicate,
  item_of-get_elem?, slot_of-some, slot_cases,
}
use linux_device_driver.Scull.Transfer.Write.{Wrote, Failed, Effect, Ready}
use linux_device_driver.Scull.Transfer.Write.Copy.{copy_in-Effect}

-- The state after the array was found or allocated.
record HasSlots (p : Place) (m : Mem) (n : ℕ) (dev : Dev) (m' : Mem) (a : Slots) : Type 0 where
  shaped : All (QsetFits dev.quantum dev.qset) dev.items
  item_in : p.item < length dev.items
  slots_fit : length a ≡ dev.qset
  all_fit : All (SlotFits dev.quantum) a
  s_in : p.s_pos < dev.qset
  q_in : p.q_pos < dev.quantum
  slots_keep :
      (s o v : ℕ)
      → byte_of (slot_of (item_of dev.items p.item) s) o ≡ some v
      → byte_of (slot_of (some a) s) o ≡ some v
  balanced : Balanced m m' n (blocks (set dev.items p.item (some a)))

nothing_there : (v : ℕ) → none ≡ some v → ⊥
nothing_there v h = cc

module _ (k : Kernel) (c : Call) (f_pos : ℕ) (p : Place) (buf : List ℕ) (m : Mem) (n : ℕ)
    (dev : Dev) where
  module _ (m' : Mem) (a : Slots) (has : HasSlots p m n dev m' a) where
    no_block :
        (m2 : Mem)
        → Moves m' m2 0 0
        → Refused k
        → Effect k c f_pos p buf m n dev (record {
          ret = err enomem;
          out = [];
          f_pos = f_pos;
          dev = record dev { items = set dev.items p.item (some a) };
          mem = m2;
        })
    no_block m2 v why = record {
      quantum_same = refl;
      qset_same = refl;
      shaped =
          All-set (QsetFits dev.quantum dev.qset) dev.items p.item (some a) has.shaped
            (has.slots_fit, has.all_fit);
      balanced = omega (arith, has.balanced, v);
      kept = λ j s o v out e.
          byte_at-set_item dev.items p.item (some a) j s o v has.item_in
            (λ same old. has.slots_keep s o v old) e;
      outcome = inr (record {
        error = enomem;
        cause = inr (inl (refl, why));
        ret_is = refl;
        pos_is = refl;
        size_is = refl;
      });
    }

    old_block : (b : Quantum) → get_elem? a p.s_pos ≡ some (some b) → Ready p m n dev m' a b
    old_block b e = record {
      shaped = has.shaped;
      item_in = has.item_in;
      slots_fit = has.slots_fit;
      all_fit = has.all_fit;
      s_in = has.s_in;
      q_in = has.q_in;
      block_fits = All_get (SlotFits dev.quantum) a p.s_pos has.all_fit e;
      slots_keep = has.slots_keep;
      block_keeps = λ o v old. rw (slot_of-some a p.s_pos e) at (has.slots_keep p.s_pos o v old);
      balanced = λ b'. omega (
        arith,
        has.balanced,
        blocks-set dev.items p.item (some a) has.item_in,
        blocks-set dev.items p.item (some (set a p.s_pos (some b'))) has.item_in,
        slot_blocks-set-some a p.s_pos b' e,
      );
    }

    new_block :
        (m2 : Mem) (b : Quantum)
        → get_elem? a p.s_pos ≡ some none
        → length b ≡ dev.quantum
        → Moves m' m2 1 0
        → Ready p m n dev m2 a b
    new_block m2 b e h v = record {
      shaped = has.shaped;
      item_in = has.item_in;
      slots_fit = has.slots_fit;
      all_fit = has.all_fit;
      s_in = has.s_in;
      q_in = has.q_in;
      block_fits = h;
      slots_keep = has.slots_keep;
      block_keeps = λ o v old.
          absurd
            (nothing_there v (rw (slot_of-some a p.s_pos e) at (has.slots_keep p.s_pos o v old)));
      balanced = λ b'. omega (
        arith,
        has.balanced,
        blocks-set dev.items p.item (some a) has.item_in,
        blocks-set dev.items p.item (some (set a p.s_pos (some b'))) has.item_in,
        slot_blocks-set-none a p.s_pos b' e,
        v,
      );
    }

    store-Effect : Holds (Effect k c f_pos p buf m n dev) (store k c f_pos p buf dev m' a)
    unfolding store claim_quantum
    store-Effect = elim (slot_cases a p.s_pos (omega (arith, has.s_in, has.slots_fit))) [
      | inl e ↦ rw e (elim (kmalloc_cases k m') [
        | inl (granted, v) ↦
            rw (granted, Holds)
              (copy_in-Effect k c f_pos p buf m n dev (kmalloc k m').1 a _
                (new_block (kmalloc k m').1 _ e (k.length-junk m'.requests dev.quantum) v))
        | inr (refused, v, why) ↦ rw (refused, Holds) (no_block (kmalloc k m').1 v why)
      ])
      | inr (b, e) ↦ rw e (copy_in-Effect k c f_pos p buf m n dev m' a b (old_block b e))
    ]

  -- From the item on, with the book-keeping of its array.
  store_item-Effect :
      (m' : Mem) (q : Qset)
      → All (QsetFits dev.quantum dev.qset) dev.items
      → get_elem? dev.items p.item ≡ some q
      → p.item < length dev.items
      → p.s_pos < dev.qset
      → p.q_pos < dev.quantum
      → Balanced m m' n (blocks dev.items)
      → Holds (Effect k c f_pos p buf m n dev) (store_item k c f_pos p buf dev m' q)
  unfolding store_item claim_slots
  store_item-Effect m' (some a) shaped e h hs hq bal =
      let here = item_of-get_elem? dev.items p.item e in
      let fits = All_get (QsetFits dev.quantum dev.qset) dev.items p.item shaped e in
      store-Effect m' a (record {
        shaped = shaped;
        item_in = h;
        slots_fit = fits.0;
        all_fit = fits.1;
        s_in = hs;
        q_in = hq;
        slots_keep = λ s o v old. rw here at old;
        balanced = omega (arith, bal, blocks-set dev.items p.item (some a) h, ap item_blocks here);
      })
  store_item-Effect m' none shaped e h hs hq bal =
      let here = item_of-get_elem? dev.items p.item e in
      let a = replicate dev.qset none in
      elim (kmalloc_cases k m') [
        | inl (granted, v) ↦
            rw (granted, Holds)
              (store-Effect (kmalloc k m').1 a (record {
                shaped = shaped;
                item_in = h;
                slots_fit = length-replicate dev.qset none;
                all_fit = All-replicate (SlotFits dev.quantum) dev.qset none tt;
                s_in = hs;
                q_in = hq;
                slots_keep = λ s o v old. absurd (nothing_there v (rw here at old));
                balanced = omega (
                  arith,
                  bal,
                  v,
                  blocks-set dev.items p.item (some a) h,
                  ap item_blocks here,
                  slot_blocks-replicate dev.qset,
                );
              }))
        | inr (refused, v, why) ↦
            rw (refused, Holds)
              (record {
                quantum_same = refl;
                qset_same = refl;
                shaped = shaped;
                balanced = omega (arith, bal, v);
                kept = λ j s o v out old. old;
                outcome = inr (record {
                  error = enomem;
                  cause = inr (inl (refl, why));
                  ret_is = refl;
                  pos_is = refl;
                  size_is = refl;
                });
              })
      ]

-- Before the item is reached: the effect of the walk is none, so that of the rest is the call's.
widen :
    (k : Kernel) (c : Call) (f_pos : ℕ) (p : Place) (buf : List ℕ) (m : Mem) (dev : Dev)
    (items : List Qset) (r : Reply)
    → ((i : ℕ) → item_of items i ≡ item_of dev.items i)
    → Effect k c f_pos p buf m (blocks dev.items) (record dev { items = items }) r
    → Effect k c f_pos p buf m (blocks dev.items) dev r
widen k c f_pos p buf m dev items r same e = record {
  quantum_same = e.quantum_same;
  qset_same = e.qset_same;
  shaped = e.shaped;
  balanced = e.balanced;
  kept = λ j s o v out old. e.kept j s o v out (rw (same j) old);
  outcome = relabel e.outcome;
}
  where
    relabel :
        Wrote k c f_pos p buf
            (clip dev.quantum p.q_pos (length buf))
            (record dev { items = items })
            r
          ⊎ Failed k c f_pos p buf (record dev { items = items }) r
        → Wrote k c f_pos p buf (clip dev.quantum p.q_pos (length buf)) dev r
          ⊎ Failed k c f_pos p buf dev r
    relabel (inl w) =
        inl (record { ret_is = w.ret_is; pos_is = w.pos_is; size_is = w.size_is; bytes = w.bytes })
    relabel (inr w) = inr (record {
      error = w.error;
      cause = w.cause;
      ret_is = w.ret_is;
      pos_is = w.pos_is;
      size_is = w.size_is;
    })

module _ (k : Kernel) (c : Call) (dev : Dev) (m : Mem) (f_pos : ℕ) (buf : List ℕ)
    (valid : IsValid dev) where
  abbrev p : Place
  p = place_of dev.quantum dev.qset f_pos

  unchanged :
      (e : Errno) (why : Cause k c e) (items : List Qset) (m' : Mem)
      → ((i : ℕ) → item_of items i ≡ item_of dev.items i)
      → All (QsetFits dev.quantum dev.qset) items
      → Balanced m m' (blocks dev.items) (blocks items)
      → Effect k c f_pos p buf m (blocks dev.items) dev (record {
        ret = err e;
        out = [];
        f_pos = f_pos;
        dev = record dev { items = items };
        mem = m';
      })
  unchanged e why items m' same shaped bal = record {
    quantum_same = refl;
    qset_same = refl;
    shaped = shaped;
    balanced = bal;
    kept = λ j s o v out old. rw (same j) old;
    outcome = inr (record { error = e; cause = why; ret_is = refl; pos_is = refl; size_is = refl });
  }

  reached-Effect :
      (r : Bool × List Qset × Mem)
      → Followed k dev.quantum dev.qset p.item dev.items m r
      → r.0 ≡ true
      → (q : Qset) → get_elem? r.1 p.item ≡ some q
      → Holds
          (Effect k c f_pos p buf m (blocks dev.items) dev)
          (store_item k c f_pos p buf (record dev { items = r.1 }) r.2 q)
  reached-Effect r f found q e =
      let place = place_of-IsPlace dev.quantum dev.qset valid.some_bytes f_pos in
      Holds-mono _ _ (store_item k c f_pos p buf (record dev { items = r.1 }) r.2 q)
        (λ a w. widen k c f_pos p buf m dev r.1 a f.same w)
        (store_item-Effect k c f_pos p buf m (blocks dev.items) (record dev { items = r.1 }) r.2 q
          (f.shaped valid.shaped) e (f.reached found) place.s_in place.q_in f.balanced)

  pub write-Effect :
      f_pos / (dev.quantum * dev.qset) ≤ int_max
      → Holds (Effect k c f_pos p buf m (blocks dev.items) dev) (write k c dev m f_pos buf)
  unfolding write
  write-Effect h =
      let r = follow k p.item dev.items m in
      let f = follow-Followed k dev.quantum dev.qset p.item dev.items m in
      elim (Bool-cases c.interrupted) [
        | inl stop ↦ simp stop (
            unchanged erestartsys (inl (refl, stop)) dev.items m (λ i. refl) valid.shaped
              (omega arith))
        | inr go ↦ simp go (
            rw (locate_lem dev.quantum dev.qset valid.some_bytes f_pos valid.int_sized h, Holds)
              (elim (Bool-cases r.0) [
                | inl found ↦
                    let (q, e) = get_elem?-some r.1 p.item (f.reached found) in
                    rw (found, e, Holds) (reached-Effect r f found q e)
                | inr lost ↦
                    rw (lost, Holds)
                      (unchanged enomem (inr (inl (refl, (f.lost lost).0))) r.1 r.2 f.same
                        (f.shaped valid.shaped) f.balanced)
              ]))
      ]
