-- ===== src/Scull/Pipe/Ring.antt =====
-- The buffer of a pipe as a ring: the bytes that wait in it, and the space left.
use linux_device_driver.Common.{
  ℕ, ◌+◌, ◌-◌, ◌%◌, ◌^◌, ◌≡◌, ◌≤◌, ◌<◌, some, List, ◌++◌, arith, Bool-cases, inl, inr, length, take,
  drop, slice, leb, ap, ◌∙◌, leb→le, if◌then◌else◌, length-append, length-take, length-drop,
  length-slice,
}
use linux_device_driver.Scull.Pipe.{Pipe, space_free}
use native.Mathlib.Nat.{mod-eq_of_lt, mod-eq-sub-mod}

-- The bytes between the read and the write pointer, going round at the end.
abbrev pub window : List ℕ → ℕ → ℕ → List ℕ
window b rp wp = if leb rp wp then slice b rp (wp - rp) else (drop rp b ++ take wp b)

-- An open pipe whose buffer has the size that the device works with.
pub record IsRing (d : Pipe) (b : List ℕ) : Type 0 where
  pub block : d.buffer ≡ some b
  pub whole : length b ≡ d.buffersize
  pub end_is : d.end ≡ d.buffersize
  pub int_sized : d.buffersize < 2 ^ 31
  pub rp_in : d.rp < d.buffersize
  pub wp_in : d.wp < d.buffersize

-- The distance from the write pointer on to the read pointer.
gap : (r w s : ℕ) → r < s → w < s → (r + s - w) % s ≡ (if leb w r then r - w else r + s - w)
gap r w s hr hw = elim (Bool-cases (leb w r)) [
  | inl le ↦
      let h : w ≤ r = leb→le w r le in
      rw le (
        mod-eq-sub-mod {n = r + s - w} {m = s} (omega arith)
        ∙ ap (λ t. t % s) {x = r + s - w - s} {y = r - w} (omega arith)
        ∙ mod-eq_of_lt (omega arith))
  | inr gt ↦ rw gt (mod-eq_of_lt (ground arith))
]

pub length-window :
    (d : Pipe) (b : List ℕ)
    → IsRing d b
    → length (window b d.rp d.wp)
      ≡ (if leb d.rp d.wp then d.wp - d.rp else d.buffersize - d.rp + d.wp)
length-window d b v = elim (Bool-cases (leb d.rp d.wp)) [
  | inl straight ↦
      rw straight (length-slice b d.rp (d.wp - d.rp) (omega (arith, v, leb→le d.rp d.wp straight)))
  | inr round ↦ rw round (
      omega (
        arith,
        v,
        length-append (drop d.rp b) (take d.wp b),
        length-drop d.rp b,
        length-take d.wp b,
      ))
]

-- `spacefree` on a valid pipe.
pub space_free_lem :
    (d : Pipe) (b : List ℕ)
    → IsRing d b
    → space_free d ≡ (if leb d.rp d.wp then d.buffersize - 1 - (d.wp - d.rp) else d.rp - d.wp - 1)
unfolding space_free
space_free_lem d b v = ground (arith, v, gap d.rp d.wp d.buffersize v.rp_in v.wp_in)

-- What a valid pipe holds is what it has no space for, but for the one byte that tells a full
-- ring from an empty one.
pub space_free-add-window :
    (d : Pipe) (b : List ℕ)
    → IsRing d b
    → space_free d + length (window b d.rp d.wp) + 1 ≡ d.buffersize
space_free-add-window d b v = ground (arith, v, length-window d b v, space_free_lem d b v)
