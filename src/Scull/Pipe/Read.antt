-- ===== src/Scull/Pipe/Read.antt =====
-- `scull_p_read` takes bytes from the front of those that wait in the pipe.
use linux_device_driver.Common.{
  ℕ, ◌+◌, ◌-◌, ◌≡◌, ◌≢◌, ◌≤◌, ◌<◌, refl, sym, ap, ◌∙◌, ◌⊎◌, inl, inr, true, false, some, List, [],
  ◌++◌, arith, Bool-cases, ◌==◌, length, take, drop, slice, min, le→leb, le→ltb_false, length-drop,
  take-append, drop-append, drop-drop, take-take, drop-take, drop_all, gt→leb_false,
}
use linux_device_driver.Kernel.{efault, ok, err, Call, Holds}
use linux_device_driver.Scull.Pipe.{Pipe, Reply, read_count, read_copy, wrap}
use linux_device_driver.Scull.Pipe.Ring.{window, IsRing}

-- Taking `n` bytes at the read pointer.
module _ (b : List ℕ) (size rp wp n : ℕ) (whole : length b ≡ size) where
  out_straight : rp ≤ wp → rp + n ≤ wp → slice b rp n ≡ take n (window b rp wp)
  out_straight h l = rw (le→leb rp wp h) (sym (take-take n (wp - rp) (drop rp b) (omega arith)))

  out_round : wp < rp → rp + n ≤ size → slice b rp n ≡ take n (window b rp wp)
  out_round h l =
      rw (gt→leb_false rp wp h)
        (sym (take-append n (drop rp b) (take wp b) (omega (arith, length-drop rp b))))

  left_straight : rp ≤ wp → rp + n ≤ wp → window b (rp + n) wp ≡ drop n (window b rp wp)
  left_straight h l =
      rw (le→leb rp wp h, le→leb (rp + n) wp l)
        (ap (λ t. take t (drop (rp + n) b)) {x = wp - (rp + n)} {y = wp - rp - n} (omega arith)
          ∙ ap (λ t. take (wp - rp - n) t) (sym (drop-drop rp n b))
          ∙ sym (drop-take n (wp - rp) (drop rp b) (omega arith)))

  left_round : wp < rp → rp + n ≤ size → window b (rp + n) wp ≡ drop n (window b rp wp)
  left_round h l =
      rw (gt→leb_false rp wp h, gt→leb_false (rp + n) wp (omega arith))
        (ap (λ t. t ++ take wp b) (sym (drop-drop rp n b))
          ∙ sym (drop-append n (drop rp b) (take wp b) (omega (arith, length-drop rp b))))

  left_at_end : wp < rp → rp + n ≡ size → window b 0 wp ≡ drop n (window b rp wp)
  left_at_end h l =
      rw (gt→leb_false rp wp h, le→leb 0 wp (omega arith))
        (ap (λ t. take t b) {x = wp - 0} {y = wp} (omega arith)
          ∙ ap (λ t. t ++ take wp b)
              (sym (drop_all n (drop rp b) (omega (arith, length-drop rp b))))
          ∙ sym (drop-append n (drop rp b) (take wp b) (omega (arith, length-drop rp b))))

module _ (c : Call) (count : ℕ) (d : Pipe) (b : List ℕ) (v : IsRing d b) where
  abbrev n : ℕ
  n = read_count d count

  -- The read stays in front of the end of the buffer.
  abbrev pub Fits : Type 0
  Fits = (d.rp < d.wp) ⊎ ((d.wp < d.rp) × (min count (d.end - d.wp) ≤ d.end - d.rp))

  -- What a read leaves: a valid pipe without the bytes delivered, and the writers woken; or, after
  -- a fault of the user's memory, the pipe as it was.
  pub record Taken (r : Reply) : Type 0 where
    pub ring : IsRing r.pipe b
    pub released : r.pipe.sem_free ≡ true
    pub outcome :
        ((r.ret ≡ ok n)
          × (r.out ≡ take n (window b d.rp d.wp))
          × (window b r.pipe.rp r.pipe.wp ≡ drop n (window b d.rp d.wp))
          × (r.woke_writers ≡ true))
        ⊎ ((r.ret ≡ err efault)
            × (c.left ≢ 0)
            × (r.out ≡ [])
            × (window b r.pipe.rp r.pipe.wp ≡ window b d.rp d.wp)
            × (r.woke_writers ≡ false))

  abbrev Advanced : ℕ → Type 0
  Advanced r = (r < d.buffersize) × (window b r d.wp ≡ drop n (window b d.rp d.wp))

  count_straight : d.rp < d.wp → d.rp + n ≤ d.wp
  unfolding read_count
  count_straight h = ground arith

  count_round : d.wp < d.rp → n ≡ min count (d.end - d.wp)
  unfolding read_count
  count_round h = ground arith

  module _ (fits : Fits) where
    in_block : d.rp + n ≤ d.buffersize
    in_block = elim fits [
      | inl s ↦ omega (arith, v, count_straight s)
      | inr r ↦ omega (arith, v, r.0, r.1, count_round r.0)
    ]

    delivered : slice b d.rp n ≡ take n (window b d.rp d.wp)
    delivered = elim fits [
      | inl s ↦ out_straight b d.buffersize d.rp d.wp n v.whole (omega arith) (count_straight s)
      | inr r ↦ out_round b d.buffersize d.rp d.wp n v.whole r.0 in_block
    ]

    advanced : Advanced (wrap d.end (d.rp + n))
    advanced = elim fits [
      | inl s ↦ rw (no_wrap (omega (arith, v, count_straight s))) (
        omega (arith, v, count_straight s),
        left_straight b d.buffersize d.rp d.wp n v.whole (omega arith) (count_straight s),
      )
      | inr r ↦ elim (Bool-cases (d.rp + n == d.end)) [
        | inl reached ↦ rw reached (
          omega (arith, v),
          left_at_end b d.buffersize d.rp d.wp n v.whole r.0 (ground (arith, v)),
        )
        | inr short ↦ rw short (
          ground (arith, v, in_block),
          left_round b d.buffersize d.rp d.wp n v.whole r.0 in_block,
        )
      ]
    ]
      where
        no_wrap : d.rp + n < d.end → wrap d.end (d.rp + n) ≡ d.rp + n
        no_wrap h = ground arith

    moved :
        (r : ℕ)
        → r < d.buffersize
        → IsRing (record d { buffer = some b; sem_free = true; rp = r }) b
    moved r l = record {
      block = refl;
      whole = v.whole;
      end_is = v.end_is;
      int_sized = v.int_sized;
      rp_in = l;
      wp_in = v.wp_in;
    }

    -- From the copy on, a read of a valid pipe that holds bytes and whose count fits is defined,
    -- keeps the pipe valid, frees the semaphore, and delivers the first bytes that wait, as many as
    -- it reports, which then wait no more; after a fault the pipe is as it was.
    pub read_copy-Taken : Holds Taken (read_copy c count d)
    unfolding read_copy
    read_copy-Taken =
        simp (v.block, le→ltb_false (length b) (d.rp + n) (omega (arith, in_block, v)), read_copy)
          (elim (Bool-cases (c.left == 0)) [
            | inl whole ↦ simp whole (record {
              ring = moved (wrap d.end (d.rp + n)) advanced.0;
              released = refl;
              outcome = inl (refl, delivered, advanced.1, refl);
            })
            | inr fault ↦ simp fault (record {
              ring = moved d.rp v.rp_in;
              released = refl;
              outcome = inr (refl, ground arith, refl, refl, refl);
            })
          ])
