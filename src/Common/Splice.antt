-- ===== src/Common/Splice.antt =====
-- `memcpy` into a block: bytes put over those from an offset on, and a slice read back.
use Prim.Native.Nat.{ℕ, zero, suc, ◌+◌, ◌-◌, ◌<◌, ◌≤◌}
use mathlib.Core.Path.{◌≡◌, refl, ap}
use mathlib.Core.Logic.{◌⊎◌, inr}
use mathlib.Core.List.{List, [], ◌∷◌}
use native.Mathlib.Omega.{arith}
use linux_device_driver.Common.Lists.{length, get_elem?, take, drop, length-take}

module _ {ℓ} {A : Type ℓ} where
  -- Bytes that would fall behind the end of the block are dropped: callers check the bound.
  abbrev pub splice : List A → ℕ → List A → List A
  splice xs zero [] = xs
  splice [] zero (y ∷ ys) = []
  splice (x ∷ xs) zero (y ∷ ys) = y ∷ splice xs zero ys
  splice [] (suc o) ys = []
  splice (x ∷ xs) (suc o) ys = x ∷ splice xs o ys

  abbrev pub slice : List A → ℕ → ℕ → List A
  slice xs o n = take n (drop o xs)

  pub length-splice : (xs : List A) (o : ℕ) (ys : List A) → length (splice xs o ys) ≡ length xs
  length-splice xs zero [] = refl
  length-splice [] zero (y ∷ ys) = refl
  length-splice (x ∷ xs) zero (y ∷ ys) = ap suc (length-splice xs zero ys)
  length-splice [] (suc o) ys = refl
  length-splice (x ∷ xs) (suc o) ys = ap suc (length-splice xs o ys)

  -- Bytes put over all of a block.
  pub splice_all : (xs ys : List A) → length xs ≡ length ys → splice xs 0 ys ≡ ys
  splice_all [] [] h = refl
  splice_all (x ∷ xs) [] h = absurd (omega arith)
  splice_all [] (y ∷ ys) h = absurd (omega arith)
  splice_all (x ∷ xs) (y ∷ ys) h = ap (λ t. y ∷ t) (splice_all xs ys (omega arith))

  -- What was copied in is what is read back.
  pub slice-splice :
      (xs : List A) (o : ℕ) (ys : List A)
      → o + length ys ≤ length xs
      → slice (splice xs o ys) o (length ys) ≡ ys
  slice-splice xs zero [] h = refl
  slice-splice [] zero (y ∷ ys) h = absurd (omega arith)
  slice-splice (x ∷ xs) zero (y ∷ ys) h = ap (λ t. y ∷ t) (slice-splice xs zero ys (omega arith))
  slice-splice [] (suc o) [] h = refl
  slice-splice [] (suc o) (y ∷ ys) h = absurd (omega arith)
  slice-splice (x ∷ xs) (suc o) ys h = slice-splice xs o ys (omega arith)

  pub get_elem?-splice_in :
      (xs : List A) (o : ℕ) (ys : List A) (i : ℕ)
      → o + length ys ≤ length xs
      → o ≤ i
      → i < o + length ys
      → get_elem? (splice xs o ys) i ≡ get_elem? ys (i - o)
  get_elem?-splice_in xs zero [] i h l u = absurd (omega arith)
  get_elem?-splice_in [] zero (y ∷ ys) i h l u = absurd (omega arith)
  get_elem?-splice_in (x ∷ xs) zero (y ∷ ys) zero h l u = refl
  get_elem?-splice_in (x ∷ xs) zero (y ∷ ys) (suc i) h l u =
      ground (arith, get_elem?-splice_in xs zero ys i (omega arith) (omega arith) (omega arith))
  get_elem?-splice_in [] (suc o) ys i h l u = absurd (omega arith)
  get_elem?-splice_in (x ∷ xs) (suc o) ys zero h l u = absurd (omega arith)
  get_elem?-splice_in (x ∷ xs) (suc o) ys (suc i) h l u =
      ground (arith, get_elem?-splice_in xs o ys i (omega arith) (omega arith) (omega arith))

  pub get_elem?-splice_out :
      (xs : List A) (o : ℕ) (ys : List A) (i : ℕ)
      → (i < o) ⊎ (o + length ys ≤ i)
      → get_elem? (splice xs o ys) i ≡ get_elem? xs i
  get_elem?-splice_out xs zero [] i h = refl
  get_elem?-splice_out [] zero (y ∷ ys) i h = refl
  get_elem?-splice_out (x ∷ xs) zero (y ∷ ys) zero h = absurd (omega arith)
  get_elem?-splice_out (x ∷ xs) zero (y ∷ ys) (suc i) h =
      get_elem?-splice_out xs zero ys i (inr (omega arith))
  get_elem?-splice_out [] (suc o) ys i h = refl
  get_elem?-splice_out (x ∷ xs) (suc o) ys zero h = refl
  get_elem?-splice_out (x ∷ xs) (suc o) ys (suc i) h = get_elem?-splice_out xs o ys i (omega arith)

  pub length-slice : (xs : List A) (o n : ℕ) → o + n ≤ length xs → length (slice xs o n) ≡ n
  length-slice xs zero n h = omega (arith, length-take n xs)
  length-slice [] (suc o) zero h = refl
  length-slice [] (suc o) (suc n) h = absurd (omega arith)
  length-slice (x ∷ xs) (suc o) n h = length-slice xs o n (omega arith)
