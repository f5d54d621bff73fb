-- ===== src/Scull/Device/Locate.antt =====
-- The place of a position in the store.
use linux_device_driver.Common.{
  ℕ, ◌+◌, ◌*◌, ◌/◌, ◌%◌, ◌^◌, ◌≡◌, ◌≤◌, ◌<◌, refl, sym, ap, ◌∙◌, row_unique, arith, lt→ltb,
  Bool-cases, inl, inr, ltb, ◌&&◌, div_lt_of_lt_mul, mod_lt_of_pos, div-mod-split,
}
use linux_device_driver.Kernel.{done, oops}
use linux_device_driver.Kernel.Clash.{done_injective, oops-ne-done}
use linux_device_driver.Scull.Device.{Place, locate, int_max}

-- The place names the position, and lies inside an item of `qset` quanta of `quantum` bytes.
pub record IsPlace (quantum qset f_pos : ℕ) (p : Place) : Type 0 where
  pub s_in : p.s_pos < qset
  pub q_in : p.q_pos < quantum
  pub position : p.item * (quantum * qset) + (p.s_pos * quantum + p.q_pos) ≡ f_pos

pos_left : (a b : ℕ) → 0 < a * b → 0 < a
pos_left a b h = grind arith

row_in_item : (quantum qset s q : ℕ) → s < qset → q < quantum → s * quantum + q < quantum * qset
row_in_item quantum qset s q hs hq = grind arith

-- The place as the source computes it.
abbrev pub place_of : ℕ → ℕ → ℕ → Place
place_of quantum qset f_pos = record {
  item = f_pos / (quantum * qset);
  s_pos = f_pos % (quantum * qset) / quantum;
  q_pos = f_pos % (quantum * qset) % quantum;
}

module _ (quantum qset : ℕ) (h : 0 < quantum * qset) where
  pub place_of-IsPlace : (f_pos : ℕ) → IsPlace quantum qset f_pos (place_of quantum qset f_pos)
  place_of-IsPlace f_pos = record {
    s_in = div_lt_of_lt_mul (f_pos % size) quantum qset (mod_lt_of_pos f_pos size h);
    q_in = mod_lt_of_pos (f_pos % size) quantum (pos_left quantum qset h);
    position = omega (arith, div-mod-split f_pos size, div-mod-split (f_pos % size) quantum);
  }
    where
      size : ℕ
      size = quantum * qset

  -- Where an item's bytes fit an `int` and the item's number does too, the place is found.
  pub locate_lem :
      (f_pos : ℕ)
      → quantum * qset ≤ int_max
      → f_pos / (quantum * qset) ≤ int_max
      → locate quantum qset f_pos ≡ done (place_of quantum qset f_pos)
  unfolding locate
  locate_lem f_pos hi hn =
      rw
        (
          lt→ltb 0 (quantum * qset) h,
          lt→ltb (quantum * qset) (2 ^ 31) (omega arith),
          lt→ltb (f_pos / (quantum * qset)) (2 ^ 31) (omega arith),
        )
        refl

  -- A place is that of its position only.
  pub place_unique :
      (p : Place) (f_pos : ℕ) → IsPlace quantum qset f_pos p → place_of quantum qset f_pos ≡ p
  place_unique p f_pos v =
      let o = place_of-IsPlace f_pos in
      let rows =
        row_unique (place_of quantum qset f_pos).item p.item (quantum * qset) _ _ (row_bound _ o)
          (row_bound p v) (o.position ∙ sym v.position) in
      let cells =
        row_unique (place_of quantum qset f_pos).s_pos p.s_pos quantum _ _ o.q_in v.q_in rows.1 in
      ground (arith, rows.0, cells.0, cells.1)
    where
      row_bound :
          (q : Place) → IsPlace quantum qset f_pos q → q.s_pos * quantum + q.q_pos < quantum * qset
      row_bound q w = row_in_item quantum qset q.s_pos q.q_pos w.s_in w.q_in

  -- Within one quantum the places follow the positions.
  pub place_of-add :
      (f_pos j : ℕ)
      → let p = place_of quantum qset f_pos in
        p.q_pos + j < quantum → place_of quantum qset (f_pos + j) ≡ record p { q_pos = p.q_pos + j }
  place_of-add f_pos j l =
      let o = place_of-IsPlace f_pos in
      place_unique _ (f_pos + j)
        (record { s_in = o.s_in; q_in = l; position = omega (arith, o.position) })

  -- A position whose place lies in the same quantum is as far away as the offsets are.
  pub offset_apart :
      (f_pos pos : ℕ)
      → let p = place_of quantum qset f_pos in
        let r = place_of quantum qset pos in
        r.item ≡ p.item → r.s_pos ≡ p.s_pos → pos + p.q_pos ≡ f_pos + r.q_pos
  offset_apart f_pos pos ei es =
      let o = place_of-IsPlace f_pos in
      let w = place_of-IsPlace pos in
      omega (
        arith,
        o.position,
        w.position,
        ap (λ (t : ℕ). t * (quantum * qset)) ei,
        ap (λ (t : ℕ). t * quantum) es,
      )

-- What a place that was found tells of the item.
pub located :
    (quantum qset f_pos : ℕ) (p : Place)
    → locate quantum qset f_pos ≡ done p
    → (p ≡ place_of quantum qset f_pos)
      × (0 < quantum * qset)
      × (quantum * qset ≤ int_max)
      × (f_pos / (quantum * qset) ≤ int_max)
unfolding locate
located quantum qset f_pos p e =
    let size = quantum * qset in
    elim (Bool-cases (ltb 0 size && ltb size (2 ^ 31) && ltb (f_pos / size) (2 ^ 31))) [
      | inl inside ↦
          let found : locate quantum qset f_pos ≡ done (place_of quantum qset f_pos) =
            rw inside refl in
          (
            done_injective (sym e ∙ found),
            ground (arith, inside),
            ground (arith, inside),
            ground (arith, inside),
          )
      | inr outside ↦
          let lost : locate quantum qset f_pos ≡ oops = rw outside refl in
          absurd (oops-ne-done (sym lost ∙ e))
    ]
