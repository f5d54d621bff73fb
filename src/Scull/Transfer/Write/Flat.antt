-- ===== src/Scull/Transfer/Write/Flat.antt =====
-- `scull_write` on the flat file that a device stands for.
use linux_device_driver.Common.{
  ℕ, ◌+◌, ◌-◌, ◌*◌, ◌/◌, ◌≡◌, ◌≤◌, ◌<◌, ap, ◌∙◌, ◌⊎◌, inl, inr, some, List, arith, length,
  get_elem?, Bool-cases, ◌==◌, max, min,
}
use linux_device_driver.Kernel.{Errno, ok, err, Kernel, Call, Mem, Holds, Holds-mono}
use linux_device_driver.Kernel.Ledger.{Cause, Balanced}
use linux_device_driver.Scull.Device.{Dev, Place, blocks, int_max, IsValid}
use linux_device_driver.Scull.Device.Follow.{byte_at}
use linux_device_driver.Scull.Device.Locate.{place_of, place_of-add, offset_apart}
use linux_device_driver.Scull.Transfer.{Reply, clip, write}
use linux_device_driver.Scull.Transfer.View.{clip-min, content}
use linux_device_driver.Scull.Transfer.Write.{Outside, Effect}
use linux_device_driver.Scull.Transfer.Write.Claim.{write-Effect}

-- How many bytes one call moves: to the end of the quantum at most.
abbrev pub chunk : Dev → ℕ → ℕ → ℕ
chunk dev f_pos count = min count (dev.quantum - (place_of dev.quantum dev.qset f_pos).q_pos)

-- The flat file after a write of `buf` at `f_pos`, and what the call returned.
pub record FileWrite (k : Kernel) (c : Call) (dev : Dev) (f_pos : ℕ) (buf : List ℕ) (r : Reply)
    : Type 0 where
  pub quantum_same : r.dev.quantum ≡ dev.quantum
  pub qset_same : r.dev.qset ≡ dev.qset
  pub kept :
      (pos v : ℕ)
      → (pos < f_pos) ⊎ (f_pos + chunk dev f_pos (length buf) ≤ pos)
      → content dev pos ≡ some v
      → content r.dev pos ≡ some v
  pub outcome :
      ((r.ret ≡ ok (chunk dev f_pos (length buf)))
        × (r.f_pos ≡ f_pos + chunk dev f_pos (length buf))
        × (r.dev.size ≡ max dev.size (f_pos + chunk dev f_pos (length buf)))
        × ((j : ℕ)
            → j < chunk dev f_pos (length buf)
            → content r.dev (f_pos + j) ≡ get_elem? buf j))
      ⊎ ((e : Errno) × (r.ret ≡ err e) × Cause k c e × (r.f_pos ≡ f_pos) × (r.dev.size ≡ dev.size))

module _ (k : Kernel) (c : Call) (dev : Dev) (m : Mem) (f_pos : ℕ) (buf : List ℕ)
    (valid : IsValid dev) (fits : f_pos / (dev.quantum * dev.qset) ≤ int_max) where
  abbrev p : Place
  p = place_of dev.quantum dev.qset f_pos

  abbrev n : ℕ
  n = chunk dev f_pos (length buf)

  outside :
      (pos : ℕ)
      → (pos < f_pos) ⊎ (f_pos + n ≤ pos)
      → let r = place_of dev.quantum dev.qset pos in
        Outside (clip dev.quantum p.q_pos (length buf)) p r.item r.s_pos r.q_pos
  outside pos h =
      let r = place_of dev.quantum dev.qset pos in
      elim (Bool-cases (p.item == r.item)) [
        | inr other ↦ inl (ground arith)
        | inl same_item ↦ elim (Bool-cases (p.s_pos == r.s_pos)) [
          | inr other ↦ inr (inl (ground arith))
          | inl same_slot ↦ inr (inr (far pos h (ground arith) (ground arith)))
        ]
      ]
    where
      far :
          (pos : ℕ)
          → (pos < f_pos) ⊎ (f_pos + n ≤ pos)
          → let r = place_of dev.quantum dev.qset pos in
            r.item ≡ p.item
            → r.s_pos ≡ p.s_pos
            → (r.q_pos < p.q_pos) ⊎ (p.q_pos + clip dev.quantum p.q_pos (length buf) ≤ r.q_pos)
      far pos h ei es = omega (
        arith,
        offset_apart dev.quantum dev.qset valid.some_bytes f_pos pos ei es,
        clip-min dev.quantum p.q_pos (length buf),
      )

  effect-FileWrite :
      (r : Reply)
      → Effect k c f_pos p buf m (blocks dev.items) dev r
      → FileWrite k c dev f_pos buf r
  effect-FileWrite r e = record {
    quantum_same = e.quantum_same;
    qset_same = e.qset_same;
    kept = λ pos v out old. rw (e.quantum_same, e.qset_same) (e.kept _ _ _ v (outside pos out) old);
    outcome = elim e.outcome [
      | inl w ↦ inl (
        w.ret_is ∙ ap ok same_chunk,
        w.pos_is ∙ ap (λ t. f_pos + t) same_chunk,
        w.size_is ∙ ap (λ t. max dev.size (f_pos + t)) same_chunk,
        λ j h.
            rw (e.quantum_same, e.qset_same)
              (ap (λ (t : Place). byte_at r.dev.items t.item t.s_pos t.q_pos)
                  (place_of-add dev.quantum dev.qset valid.some_bytes f_pos j (omega arith))
                ∙ w.bytes j (omega (arith, same_chunk))),
      )
      | inr f ↦ inr (f.error, f.ret_is, f.cause, f.pos_is, f.size_is)
    ];
  }
    where
      same_chunk : clip dev.quantum p.q_pos (length buf) ≡ n
      same_chunk = clip-min dev.quantum p.q_pos (length buf)

  -- On a valid device and a position whose item has a number, `scull_write` has no undefined
  -- behaviour. It writes the bytes up to the end of the quantum at most, returns how many,
  -- advances the position and lets the size cover it; or it returns an error, for a signal,
  -- a refused allocation or a faulting copy only, with position and size as before. On every path the bytes outside the range keep their values.
  pub write_refines : Holds (FileWrite k c dev f_pos buf) (write k c dev m f_pos buf)
  write_refines =
      Holds-mono _ _ (write k c dev m f_pos buf) effect-FileWrite
        (write-Effect k c dev m f_pos buf valid fits)

  -- On every path, also where an allocation or the copy fails, `scull_write` keeps the device
  -- valid, and each block that it allocated is held by the device.
  pub write-IsValid :
      Holds
        (λ r. IsValid r.dev × Balanced m r.mem (blocks dev.items) (blocks r.dev.items))
        (write k c dev m f_pos buf)
  write-IsValid =
      Holds-mono _ _ (write k c dev m f_pos buf)
        (λ r e. (
          record {
            shaped = rw (e.quantum_same, e.qset_same) e.shaped;
            some_bytes = rw (e.quantum_same, e.qset_same) valid.some_bytes;
            int_sized = rw (e.quantum_same, e.qset_same) valid.int_sized;
          },
          e.balanced,
        ))
        (write-Effect k c dev m f_pos buf valid fits)
