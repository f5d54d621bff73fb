-- ===== src/Scull/Pipe/Write.antt =====
-- `scull_p_write` appends to the bytes that wait in the pipe.
use linux_device_driver.Common.{
  ℕ, ◌+◌, ◌-◌, ◌≡◌, ◌≢◌, ◌≤◌, ◌<◌, refl, sym, ap, subst, ◌∙◌, ◌⊎◌, inl, inr, true, false, some,
  List, ◌++◌, arith, Bool-cases, ◌==◌, length, take, drop, splice, leb, leb→le, le→leb,
  le→ltb_false, length-take, length-drop, length-splice, take_all, take-splice, drop-splice,
  slice-splice_end, take-splice_before, slice-splice_before, gt→leb_false,
}
use mathlib.Core.List.{append-nil, append_assoc}
use linux_device_driver.Kernel.{efault, ok, err, Kernel, Call, Holds}
use linux_device_driver.Scull.Pipe.{Pipe, Reply, space_free, write_count, write_copy, wrap}
use linux_device_driver.Scull.Pipe.Ring.{window, IsRing, space_free_lem}

-- Putting bytes at the write pointer, where the ring has space for them.
module _ (b src : List ℕ) (size rp wp : ℕ) (whole : length b ≡ size) where
  abbrev b' : List ℕ
  b' = splice b wp src

  append_straight :
      rp ≤ wp → wp + length src < size → window b' rp (wp + length src) ≡ window b rp wp ++ src
  append_straight h l =
      rw (le→leb rp (wp + length src) (omega arith), le→leb rp wp h)
        (slice-splice_end b rp wp src h (omega arith))

  append_to_end : rp ≤ wp → wp + length src ≡ size → 0 < rp → window b' rp 0 ≡ window b rp wp ++ src
  append_to_end h e pos =
      rw (gt→leb_false rp 0 pos, le→leb rp wp h, append-nil (drop rp b'))
        (sym (
            take_all (wp + length src - rp) (drop rp b')
              (omega (arith, length-drop rp b', length-splice b wp src)))
          ∙ slice-splice_end b rp wp src h (omega arith))

  append_round :
      wp < rp
      → wp + length src < rp
      → rp < size
      → window b' rp (wp + length src) ≡ window b rp wp ++ src
  append_round h l r =
      rw
        (
          gt→leb_false rp (wp + length src) l,
          gt→leb_false rp wp h,
          drop-splice b wp src rp (omega arith),
          take-splice b wp src (omega arith),
        )
        (sym (append_assoc (drop rp b) (take wp b) src))

  -- The copy itself does not touch the bytes that wait.
  window_kept : (rp ≤ wp) ⊎ (wp + length src < rp) → window b' rp wp ≡ window b rp wp
  window_kept (inl h) =
      rw (le→leb rp wp h) (slice-splice_before b wp src rp (wp - rp) (omega arith))
  window_kept (inr l) =
      rw
        (
          gt→leb_false rp wp (omega arith),
          drop-splice b wp src rp (omega arith),
          take-splice_before b wp src wp (omega arith),
        )
        refl

module _ (k : Kernel) (c : Call) (buf : List ℕ) (d : Pipe) (b : List ℕ) (v : IsRing d b) where
  abbrev n : ℕ
  n = write_count d (length buf)

  abbrev src : List ℕ
  src = k.copied c.left (take n buf)

  abbrev new_block : List ℕ
  new_block = splice b d.wp src

  -- What a write leaves: a valid pipe with the bytes appended, and the readers woken; or, after a
  -- fault of the user's memory, the bytes that waited before.
  pub record Appended (r : Reply) : Type 0 where
    pub ring : IsRing r.pipe new_block
    pub released : r.pipe.sem_free ≡ true
    pub outcome :
        ((r.ret ≡ ok n)
          × (window new_block r.pipe.rp r.pipe.wp ≡ window b d.rp d.wp ++ take n buf)
          × (r.woke_readers ≡ true)
          × (r.signalled ≡ d.async))
        ⊎ ((r.ret ≡ err efault)
            × (c.left ≢ 0)
            × (window new_block r.pipe.rp r.pipe.wp ≡ window b d.rp d.wp)
            × (r.woke_readers ≡ false))

  count_straight :
      d.rp ≤ d.wp
      → (n ≤ length buf) × (n + d.wp + 1 ≤ d.buffersize + d.rp) × (d.wp + n ≤ d.buffersize)
  unfolding write_count
  count_straight h = ground (arith, v, space_free_lem d b v)

  count_round : d.wp < d.rp → (n ≤ length buf) × (d.wp + n < d.rp)
  unfolding write_count
  count_round h = ground (arith, v, space_free_lem d b v)

  count_le : n ≤ length buf
  unfolding write_count
  count_le = ground arith

  length-src : length src ≡ n
  length-src = omega (arith, k.length-copied c.left (take n buf), length-take n buf, count_le)

  in_block : d.wp + n ≤ length b
  in_block = elim (Bool-cases (leb d.rp d.wp)) [
    | inl s ↦ omega (arith, v, count_straight (leb→le d.rp d.wp s))
    | inr r ↦ omega (arith, v, count_round (ground arith))
  ]

  -- Where the write pointer stands after the copy, with the bytes that then wait.
  abbrev Advanced : ℕ → Type 0
  Advanced w = (w < d.buffersize) × (window new_block d.rp w ≡ window b d.rp d.wp ++ src)

  Advanced-round : d.wp < d.rp → Advanced (d.wp + length src)
  Advanced-round back = (
    omega (arith, v, count_round back, length-src),
    append_round b src d.buffersize d.rp d.wp v.whole back
        (omega (arith, count_round back, length-src)) v.rp_in,
  )

  Advanced-end : d.rp ≤ d.wp → d.wp + length src ≡ d.buffersize → Advanced 0
  Advanced-end h e = (
    omega (arith, v),
    append_to_end b src d.buffersize d.rp d.wp v.whole h e
        (omega (arith, count_straight h, length-src)),
  )

  Advanced-straight : d.rp ≤ d.wp → d.wp + length src < d.buffersize → Advanced (d.wp + length src)
  Advanced-straight h l = (l, append_straight b src d.buffersize d.rp d.wp v.whole h l)

  advanced : Advanced (wrap d.end (d.wp + length src))
  advanced = elim (Bool-cases (leb d.rp d.wp)) [
    | inr r ↦
        let back : d.wp < d.rp = ground arith in
        rw (no_wrap (omega (arith, v, count_round back, length-src))) (Advanced-round back)
    | inl s ↦ elim (Bool-cases (d.wp + length src == d.end)) [
      | inl reached ↦ rw (reached) (Advanced-end (leb→le d.rp d.wp s) (ground (arith, v)))
      | inr short ↦
          let l : d.wp + length src < d.buffersize =
            ground (arith, v, count_straight (leb→le d.rp d.wp s), length-src) in
          rw short (Advanced-straight (leb→le d.rp d.wp s) l)
    ]
  ]
    where
      no_wrap : d.wp + length src < d.end → wrap d.end (d.wp + length src) ≡ d.wp + length src
      no_wrap h = ground arith

  kept : window new_block d.rp d.wp ≡ window b d.rp d.wp
  kept = window_kept b src d.buffersize d.rp d.wp v.whole (elim (Bool-cases (leb d.rp d.wp)) [
    | inl s ↦ inl (leb→le d.rp d.wp s)
    | inr r ↦ inr (omega (arith, count_round (ground arith), length-src))
  ])

  -- The ring after a copy into it, the write pointer at `w`.
  moved :
      (w : ℕ)
      → w < d.buffersize
      → IsRing (record d { buffer = some new_block; sem_free = true; wp = w }) new_block
  moved w l = record {
    block = refl;
    whole = length-splice b d.wp src ∙ v.whole;
    end_is = v.end_is;
    int_sized = v.int_sized;
    rp_in = v.rp_in;
    wp_in = l;
  }

  all_copied : (c.left ≡ 0) → src ≡ take n buf
  all_copied e = rw e (k.copied_all (take n buf))

  Advanced-n : Advanced (wrap d.end (d.wp + n))
  Advanced-n = subst (λ t. Advanced (wrap d.end (d.wp + t))) length-src advanced

  -- From the copy on, a write of a valid pipe is defined wherever the pointers stand, keeps the
  -- pipe valid, frees the semaphore, and appends as many of the first bytes of the user's buffer
  -- as it reports; after a fault the bytes that waited still wait, and the fault is reported.
  pub write_copy-Appended : Holds Appended (write_copy k c buf d)
  unfolding write_copy
  write_copy-Appended =
      simp (v.block, le→ltb_false (length b) (d.wp + n) in_block, write_copy)
        (elim (Bool-cases (c.left == 0)) [
          | inl whole ↦ simp whole (record {
            ring = moved (wrap d.end (d.wp + n)) Advanced-n.0;
            released = refl;
            outcome = inl (
              refl,
              Advanced-n.1 ∙ ap (λ t. window b d.rp d.wp ++ t) (all_copied (ground arith)),
              refl,
              refl,
            );
          })
          | inr fault ↦ simp fault (record {
            ring = moved d.wp v.wp_in;
            released = refl;
            outcome = inr (refl, ground arith, kept, refl);
          })
        ])

  -- A writer that has space and bytes makes progress.
  pub write_count_pos : 0 < space_free d → 0 < length buf → 0 < n
  unfolding write_count
  write_count_pos room some_bytes = ground (arith, v, space_free_lem d b v)
