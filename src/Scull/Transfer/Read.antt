-- ===== src/Scull/Transfer/Read.antt =====
-- What `scull_read` delivers of the flat file that a device stands for.
use linux_device_driver.Common.{
  ℕ, zero, suc, ◌+◌, ◌-◌, ◌*◌, ◌/◌, ◌≡◌, ◌≢◌, ◌≤◌, ◌<◌, refl, sym, ap, ◌∙◌, ◌⊎◌, inl, inr, Bool,
  true, none, some, List, [], ◌∷◌, arith, length, get_elem?, Bool-cases, ◌==◌, min, get_elem?-take,
  le→ltb_false, get_elem?-some, All_get, drop, slice, length-slice,
}
use linux_device_driver.Kernel.{Errno, erestartsys, efault, ok, err, Kernel, Call, Mem, Holds}
use linux_device_driver.Kernel.Ledger.{Balanced}
use linux_device_driver.Scull.Device.{
  Dev, Place, Qset, Quantum, Slots, SlotFits, QsetFits, blocks, int_max, IsValid, follow,
}
use linux_device_driver.Scull.Device.Follow.{
  byte_of, slot_of, item_of, byte_at, Followed, follow-Followed,
}
use linux_device_driver.Scull.Device.Locate.{
  IsPlace, place_of, place_of-IsPlace, place_of-add, locate_lem,
}
use linux_device_driver.Scull.Transfer.{Reply, clip, readable, copy_out, fetch, read}
use linux_device_driver.Scull.Transfer.View.{
  content, item_of-get_elem?, slot_of-some, slot_cases, clip-min,
}

-- What a read that asks for `want` bytes (after the check against the size) delivers.
pub record FileRead (c : Call) (dev : Dev) (m : Mem) (f_pos want : ℕ) (r : Reply) : Type 0 where
  -- The flat file, its size and the shape of the device are as they were.
  pub same : (pos : ℕ) → content r.dev pos ≡ content dev pos
  -- The device is valid, and holds each block that the walk allocated.
  pub valid : IsValid r.dev
  pub balanced : Balanced m r.mem (blocks dev.items) (blocks r.dev.items)
  pub size_same : r.dev.size ≡ dev.size
  pub quantum_same : r.dev.quantum ≡ dev.quantum
  pub qset_same : r.dev.qset ≡ dev.qset
  pub outcome :
      -- bytes of the file, in order, up to the end of the quantum at most,
      ((n : ℕ) × (r.ret ≡ ok n)
        × (n ≡ min want (dev.quantum - (place_of dev.quantum dev.qset f_pos).q_pos))
        × (length r.out ≡ n)
        × (r.f_pos ≡ f_pos + n)
        × ((j : ℕ) → j < n → get_elem? r.out j ≡ content dev (f_pos + j)))
      -- or nothing, and then no quantum stands at the position,
      ⊎ (((r.ret ≡ ok 0) × (r.out ≡ []) × (r.f_pos ≡ f_pos) × (content dev f_pos ≡ none))
          -- or an error, and nothing is delivered.
          ⊎ ((e : Errno) × (r.ret ≡ err e)
              × (((e ≡ erestartsys) × (c.interrupted ≡ true)) ⊎ ((e ≡ efault) × (c.left ≢ 0)))
              × (r.out ≡ [])
              × (r.f_pos ≡ f_pos)))

get_elem?-drop : (o : ℕ) (xs : List ℕ) (j : ℕ) → get_elem? (drop o xs) j ≡ get_elem? xs (o + j)
get_elem?-drop zero xs j = ground arith
get_elem?-drop (suc o) [] j = refl
get_elem?-drop (suc o) (x ∷ xs) j = ground (arith, get_elem?-drop o xs j)

get_elem?-slice :
    (xs : List ℕ) (o n j : ℕ) → j < n → get_elem? (slice xs o n) j ≡ get_elem? xs (o + j)
get_elem?-slice xs o n j h = get_elem?-take n j (drop o xs) h ∙ get_elem?-drop o xs j

module _ (k : Kernel) (c : Call) (dev : Dev) (m : Mem) (f_pos want : ℕ) (valid : IsValid dev) where
  abbrev p : Place
  p = place_of dev.quantum dev.qset f_pos

  -- The store that the read works on has the items of the walk.
  module _ (r : Bool × List Qset × Mem)
      (f : Followed k dev.quantum dev.qset p.item dev.items m r) where
    abbrev dev' : Dev
    dev' = record dev { items = r.1 }

    same_content : (pos : ℕ) → content dev' pos ≡ content dev pos
    same_content pos =
        let q = place_of dev.quantum dev.qset pos in
        ap (λ t. byte_of (slot_of t q.s_pos) q.q_pos) (f.same q.item)

    still-IsValid : IsValid dev'
    still-IsValid = record {
      shaped = f.shaped valid.shaped;
      some_bytes = valid.some_bytes;
      int_sized = valid.int_sized;
    }

    nothing :
        content dev f_pos ≡ none
        → FileRead c dev m f_pos want
            (record { ret = ok 0; out = []; f_pos = f_pos; dev = dev'; mem = r.2 })
    nothing e = record {
      same = same_content;
      valid = still-IsValid;
      balanced = f.balanced;
      size_same = refl;
      quantum_same = refl;
      qset_same = refl;
      outcome = inr (inl (refl, refl, refl, e));
    }

    abbrev n : ℕ
    n = min want (dev.quantum - p.q_pos)

    bytes_there :
        (b : Quantum) (j : ℕ)
        → slot_of (item_of r.1 p.item) p.s_pos ≡ some b
        → j < n
        → get_elem? b (p.q_pos + j) ≡ content dev (f_pos + j)
    bytes_there b j e h =
        ap (λ t. byte_of t (p.q_pos + j)) (sym e)
        ∙ ap (λ t. byte_of (slot_of t p.s_pos) (p.q_pos + j)) (f.same p.item)
        ∙ ap (λ (t : Place). byte_at dev.items t.item t.s_pos t.q_pos)
            (sym (place_of-add dev.quantum dev.qset valid.some_bytes f_pos j (omega arith)))

    short : clip dev.quantum p.q_pos want ≡ n
    short = clip-min dev.quantum p.q_pos want

    fits : p.q_pos + n ≤ dev.quantum
    fits = omega (arith, (place_of-IsPlace dev.quantum dev.qset valid.some_bytes f_pos).q_in)

    delivered :
        (b : Quantum)
        → length b ≡ dev.quantum
        → slot_of (item_of r.1 p.item) p.s_pos ≡ some b
        → Holds (FileRead c dev m f_pos want) (copy_out c f_pos p want dev' r.2 b)
    unfolding copy_out
    delivered b h e =
        rw (short, le→ltb_false (length b) (p.q_pos + n) (omega (arith, fits)))
          (elim (Bool-cases (c.left == 0)) [
            | inl whole ↦ simp whole (record {
              same = same_content;
              valid = still-IsValid;
              balanced = f.balanced;
              size_same = refl;
              quantum_same = refl;
              qset_same = refl;
              outcome = inl (
                n,
                refl,
                refl,
                length-slice b p.q_pos n (omega (arith, fits)),
                refl,
                λ j l. get_elem?-slice b p.q_pos n j l ∙ bytes_there b j e l,
              );
            })
            | inr faulted ↦ simp faulted (record {
              same = same_content;
              valid = still-IsValid;
              balanced = f.balanced;
              size_same = refl;
              quantum_same = refl;
              qset_same = refl;
              outcome = inr (inr (efault, refl, inr ((refl, λ z. ground arith)), refl, refl));
            })
          ])

    no_item : get_elem? r.1 p.item ≡ some none → content dev f_pos ≡ none
    no_item e =
        sym (same_content f_pos)
        ∙ ap (λ t. byte_of (slot_of t p.s_pos) p.q_pos) (item_of-get_elem? r.1 p.item e)

    held :
        (a : Slots) (b : Quantum)
        → get_elem? r.1 p.item ≡ some (some a)
        → get_elem? a p.s_pos ≡ some (some b)
        → slot_of (item_of r.1 p.item) p.s_pos ≡ some b
    held a b e there =
        ap (λ t. slot_of t p.s_pos) (item_of-get_elem? r.1 p.item e) ∙ slot_of-some a p.s_pos there

    no_quantum :
        (a : Slots)
        → get_elem? r.1 p.item ≡ some (some a)
        → get_elem? a p.s_pos ≡ some none
        → content dev f_pos ≡ none
    no_quantum a e empty =
        sym (same_content f_pos)
        ∙ ap (λ t. byte_of (slot_of t p.s_pos) p.q_pos) (item_of-get_elem? r.1 p.item e)
        ∙ ap (λ t. byte_of t p.q_pos) (slot_of-some a p.s_pos empty)

    place : IsPlace dev.quantum dev.qset f_pos p
    place = place_of-IsPlace dev.quantum dev.qset valid.some_bytes f_pos

    fetched :
        (q : Qset)
        → get_elem? r.1 p.item ≡ some q
        → QsetFits dev.quantum dev.qset q
        → Holds (FileRead c dev m f_pos want) (fetch c f_pos p want dev' r.2 q)
    unfolding fetch
    fetched none e h = nothing (no_item e)
    fetched (some a) e h = elim (slot_cases a p.s_pos (omega (arith, h.0, place.s_in))) [
      | inl empty ↦ rw (empty, Holds) (nothing (no_quantum a e empty))
      | inr (b, there) ↦
          rw (there, Holds)
            (delivered b (All_get (SlotFits dev.quantum) a p.s_pos h.1 there) (held a b e there))
    ]

module _ (k : Kernel) (c : Call) (dev : Dev) (m : Mem) (f_pos count : ℕ) (valid : IsValid dev)
    (fits : f_pos / (dev.quantum * dev.qset) ≤ int_max) where
  abbrev want : ℕ
  want = readable dev.size f_pos count

  abbrev spot : Place
  spot = place_of dev.quantum dev.qset f_pos

  interrupted-FileRead :
      c.interrupted ≡ true
      → FileRead c dev m f_pos want
          (record { ret = err erestartsys; out = []; f_pos = f_pos; dev = dev; mem = m })
  interrupted-FileRead stop = record {
    same = λ pos. refl;
    valid = valid;
    balanced = omega arith;
    size_same = refl;
    quantum_same = refl;
    qset_same = refl;
    outcome = inr (inr (erestartsys, refl, inl (refl, stop), refl, refl));
  }

  -- On a valid device and a position whose item has a number, `scull_read` has no undefined
  -- behaviour, keeps it valid, leaks no block, and leaves the flat file and its size as they were. It delivers the bytes that
  -- stand from the position on, up to the end of the quantum, and advances the position by their
  -- number; or nothing, and then no quantum stands at the position; or an error with nothing.
  pub read_refines : Holds (FileRead c dev m f_pos want) (read k c dev m f_pos count)
  unfolding read
  read_refines =
      let r = follow k spot.item dev.items m in
      let f = follow-Followed k dev.quantum dev.qset spot.item dev.items m in
      elim (Bool-cases c.interrupted) [
        | inl stop ↦ simp stop (interrupted-FileRead stop)
        | inr go ↦ simp go (
            rw (locate_lem dev.quantum dev.qset valid.some_bytes f_pos valid.int_sized fits, Holds)
              (elim (Bool-cases r.0) [
                | inl found ↦
                    let (q, e) = get_elem?-some r.1 spot.item (f.reached found) in
                    rw (found, e, Holds)
                      (fetched k c dev m f_pos want valid r f q e (
                        All_get (QsetFits dev.quantum dev.qset) r.1 spot.item
                          (f.shaped valid.shaped) e))
                | inr lost ↦
                    rw (lost, Holds)
                      (nothing k c dev m f_pos want valid r f
                        (ap (λ t. byte_of (slot_of t spot.s_pos) spot.q_pos) (f.lost lost).1))
              ]))
      ]
