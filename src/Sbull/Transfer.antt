-- ===== src/Sbull/Transfer.antt =====
-- Transfers of the RAM disk against its contents as one array of bytes.
use linux_device_driver.Common.{
  ℕ, zero, suc, ◌+◌, ◌*◌, ◌%◌, ◌^◌, ◌≡◌, ◌≤◌, ◌<◌, Bool, true, false, List, [], ◌∷◌, ◌++◌, arith,
  refl, sym, ap, ◌∙◌, length, splice, slice, take_all, length-append, length-splice, length-slice,
  slice-splice, All, lt→ltb, le→ltb_false,
}
use native.Mathlib.Nat.{mod-eq_of_lt}
use linux_device_driver.Kernel.{done, ◌>>=◌}
use linux_device_driver.Sbull.{transfer, xfer_segments}

-- A request inside the disk: the block layer's numbers do not wrap.
pub record Fits (size sector nsect : ℕ) (contents buffer : List ℕ) : Type 0 where
  pub whole : length contents ≡ size
  pub sized : size < 2 ^ 31
  pub inside : (sector + nsect) * 512 ≤ size
  pub full : length buffer ≡ nsect * 512

module _ (size sector nsect : ℕ) (contents buffer : List ℕ)
    (v : Fits size sector nsect contents buffer) where
  offset_word : (sector * 512) % 2 ^ 64 ≡ sector * 512
  offset_word = mod-eq_of_lt (omega (arith, v))

  nbytes_word : (nsect * 512) % 2 ^ 64 ≡ nsect * 512
  nbytes_word = mod-eq_of_lt (omega (arith, v))

  end_word : (sector * 512 + nsect * 512) % 2 ^ 64 ≡ sector * 512 + nsect * 512
  end_word = mod-eq_of_lt (omega (arith, v))

  -- A write inside the disk puts the buffer's bytes at the sector and leaves the buffer alone.
  pub transfer_write :
      transfer size contents sector nsect buffer true
      ≡ done (splice contents (sector * 512) buffer, buffer)
  unfolding transfer
  transfer_write =
      rw
        (
          offset_word,
          nbytes_word,
          end_word,
          le→ltb_false size (sector * 512 + nsect * 512) (omega (arith, v)),
          le→ltb_false (length contents) (sector * 512 + nsect * 512) (omega (arith, v)),
          le→ltb_false (length buffer) (nsect * 512) (omega (arith, v)),
          take_all (nsect * 512) buffer (omega (arith, v)),
        )
        refl

  -- A read inside the disk fills the buffer from the sector and leaves the disk alone.
  pub transfer_read :
      transfer size contents sector nsect buffer false
      ≡ done (contents, slice contents (sector * 512) (nsect * 512))
  unfolding transfer
  transfer_read =
      rw
        (
          offset_word,
          nbytes_word,
          end_word,
          le→ltb_false size (sector * 512 + nsect * 512) (omega (arith, v)),
          le→ltb_false (length contents) (sector * 512 + nsect * 512) (omega (arith, v)),
          le→ltb_false (length buffer) (nsect * 512) (omega (arith, v)),
        )
        (ap (λ t. done (contents, t))
          (splice_all buffer (slice contents (sector * 512) (nsect * 512)) (
            omega
              (arith, v, length-slice contents (sector * 512) (nsect * 512) (omega (arith, v))))))
    where
      splice_all : (xs ys : List ℕ) → length ys ≡ length xs → splice xs 0 ys ≡ ys
      splice_all [] [] h = refl
      splice_all [] (y ∷ ys) h = absurd (omega arith)
      splice_all (x ∷ xs) [] h = absurd (omega arith)
      splice_all (x ∷ xs) (y ∷ ys) h = ap (λ t. y ∷ t) (splice_all xs ys (omega arith))

-- A transfer that reaches behind the end of the disk, its numbers short of wrapping, changes
-- neither the disk nor the buffer.
pub transfer_outside :
    (size sector nsect : ℕ) (contents buffer : List ℕ) (write : Bool)
    → (sector + nsect) * 512 < 2 ^ 64
    → size < (sector + nsect) * 512
    → transfer size contents sector nsect buffer write ≡ done (contents, buffer)
unfolding transfer
transfer_outside size sector nsect contents buffer write word outside =
    rw
      (
        mod-eq_of_lt {n = sector * 512} {m = 2 ^ 64} (omega arith),
        mod-eq_of_lt {n = nsect * 512} {m = 2 ^ 64} (omega arith),
        mod-eq_of_lt {n = sector * 512 + nsect * 512} {m = 2 ^ 64} (omega arith),
        lt→ltb size (sector * 512 + nsect * 512) (omega arith),
      )
      refl

-- Sectors written inside a disk of fewer than 2 ^ 31 bytes, out of a buffer of their size, are
-- what a later read of the same sectors puts into another buffer of that size.
pub write_then_read_disk :
    (size sector nsect : ℕ) (contents buffer other : List ℕ)
    → Fits size sector nsect contents buffer
    → length other ≡ nsect * 512
    → (do
      w ← transfer size contents sector nsect buffer true
      transfer size w.0 sector nsect other false)
      ≡ done (splice contents (sector * 512) buffer, buffer)
write_then_read_disk size sector nsect contents buffer other v l =
    rw (transfer_write size sector nsect contents buffer v) (
      transfer_read size sector nsect (splice contents (sector * 512) buffer) other (record {
        whole = length-splice contents (sector * 512) buffer ∙ v.whole;
        sized = v.sized;
        inside = v.inside;
        full = l;
      })
      ∙ ap (λ t. done (splice contents (sector * 512) buffer, t))
          (ap (λ n. slice (splice contents (sector * 512) buffer) (sector * 512) n) (sym v.full)
            ∙ slice-splice contents (sector * 512) buffer (omega (arith, v))))

abbrev pub concat : List (List ℕ) → List ℕ
concat [] = []
concat (s ∷ ss) = s ++ concat ss

splice-append :
    (xs : List ℕ) (o : ℕ) (ys zs : List ℕ)
    → o + length ys ≤ length xs
    → splice (splice xs o ys) (o + length ys) zs ≡ splice xs o (ys ++ zs)
splice-append xs zero [] zs h = refl
splice-append [] zero (y ∷ ys) zs h = absurd (omega arith)
splice-append (x ∷ xs) zero (y ∷ ys) zs h =
    ap (λ t. splice (y ∷ splice xs 0 ys) t zs) {x = 0 + suc (length ys)} {y = suc (0 + length ys)}
      (omega arith)
    ∙ ap (λ t. y ∷ t) (splice-append xs zero ys zs (omega arith))
splice-append [] (suc o) [] zs h = absurd (omega arith)
splice-append [] (suc o) (y ∷ ys) zs h = absurd (omega arith)
splice-append (x ∷ xs) (suc o) ys zs h =
    ap (λ t. splice (x ∷ splice xs o ys) t zs) {x = suc o + length ys} {y = suc (o + length ys)}
      (omega arith)
    ∙ ap (λ t. x ∷ t) (splice-append xs o ys zs (omega arith))

abbrev pub Sized : ℕ → List ℕ → Type 0
Sized n s = length s ≡ n

-- On a disk of fewer than 2 ^ 31 bytes, writing the segments of a bio that fit one by one, each as
-- long as the kernel says the current one is, is writing their bytes in a row, and leaves the
-- segments alone.
pub xfer_segments-flat :
    (size sector cur : ℕ) (contents : List ℕ) (ss : List (List ℕ))
    → length contents ≡ size
    → size < 2 ^ 31
    → All (Sized (cur * 512)) ss
    → sector * 512 + length (concat ss) ≤ size
    → xfer_segments size contents sector cur ss true
      ≡ done (splice contents (sector * 512) (concat ss), ss)
unfolding xfer_segments
xfer_segments-flat size sector cur contents [] l s h i =
    rw (splice_nil contents (sector * 512)) refl
  where
    splice_nil : (xs : List ℕ) (o : ℕ) → splice xs o [] ≡ xs
    splice_nil xs zero = refl
    splice_nil [] (suc o) = refl
    splice_nil (x ∷ xs) (suc o) = ap (λ t. x ∷ t) (splice_nil xs o)
xfer_segments-flat size sector cur contents (s ∷ ss) l small h i =
    let joined = length-append s (concat ss) in
    rw
      (
        transfer_write size sector cur contents s (record {
          whole = l;
          sized = small;
          inside = omega (arith, i, joined, h.0);
          full = h.0;
        }),
        xfer_segments-flat size (sector + cur) cur (splice contents (sector * 512) s) ss
            (length-splice contents (sector * 512) s ∙ l) small h.1 (omega (arith, i, joined, h.0)),
      )
      (ap (λ t. done (t, s ∷ ss))
        (ap (λ o. splice (splice contents (sector * 512) s) o (concat ss))
            {x = (sector + cur) * 512} {y = sector * 512 + length s} (omega (arith, h.0))
          ∙ splice-append contents (sector * 512) s (concat ss) (omega (arith, i, joined, h.0, l))))
