-- ===== src/Common/Slices.antt =====
-- Slices of a block: how they join, and what a splice does to them.
use Prim.Native.Nat.{ℕ, zero, suc, ◌+◌, ◌-◌, ◌≤◌}
use mathlib.Core.Path.{◌≡◌, refl, ap, sym, ◌∙◌}
use mathlib.Core.List.{List, [], ◌∷◌, ◌++◌}
use native.Mathlib.Omega.{arith}
use linux_device_driver.Common.Lists.{length, take, drop}
use linux_device_driver.Common.Splice.{splice, slice}

module _ {ℓ} {A : Type ℓ} where
  pub take-append : (n : ℕ) (xs ys : List A) → n ≤ length xs → take n (xs ++ ys) ≡ take n xs
  take-append zero xs ys h = refl
  take-append (suc n) [] ys h = absurd (omega arith)
  take-append (suc n) (x ∷ xs) ys h = ap (λ t. x ∷ t) (take-append n xs ys (omega arith))

  pub drop-append : (n : ℕ) (xs ys : List A) → n ≤ length xs → drop n (xs ++ ys) ≡ drop n xs ++ ys
  drop-append zero xs ys h = refl
  drop-append (suc n) [] ys h = absurd (omega arith)
  drop-append (suc n) (x ∷ xs) ys h = drop-append n xs ys (omega arith)

  drop-nil : (n : ℕ) → drop {A = A} n [] ≡ []
  drop-nil zero = refl
  drop-nil (suc n) = refl

  take-nil : (n : ℕ) → take {A = A} n [] ≡ []
  take-nil zero = refl
  take-nil (suc n) = refl

  pub drop-drop : (a b : ℕ) (xs : List A) → drop b (drop a xs) ≡ drop (a + b) xs
  drop-drop zero b xs = ap (λ t. drop t xs) {x = b} {y = 0 + b} (omega arith)
  drop-drop (suc a) b [] = drop-nil b ∙ sym (drop-nil (suc a + b))
  drop-drop (suc a) b (x ∷ xs) =
      drop-drop a b xs ∙ ap (λ t. drop t (x ∷ xs)) {x = suc (a + b)} {y = suc a + b} (omega arith)

  pub take-take : (a b : ℕ) (xs : List A) → a ≤ b → take a (take b xs) ≡ take a xs
  take-take zero b xs h = refl
  take-take (suc a) zero xs h = absurd (omega arith)
  take-take (suc a) (suc b) [] h = refl
  take-take (suc a) (suc b) (x ∷ xs) h = ap (λ t. x ∷ t) (take-take a b xs (omega arith))

  pub drop-take : (a b : ℕ) (xs : List A) → a ≤ b → drop a (take b xs) ≡ take (b - a) (drop a xs)
  drop-take zero b xs h = ap (λ t. take t xs) {x = b} {y = b - 0} (omega arith)
  drop-take (suc a) zero xs h = absurd (omega arith)
  drop-take (suc a) (suc b) [] h = sym (take-nil (suc b - suc a))
  drop-take (suc a) (suc b) (x ∷ xs) h = ground (arith, drop-take a b xs)

  pub drop_all : (n : ℕ) (xs : List A) → length xs ≤ n → drop n xs ≡ []
  drop_all zero [] h = refl
  drop_all zero (x ∷ xs) h = absurd (omega arith)
  drop_all (suc n) [] h = refl
  drop_all (suc n) (x ∷ xs) h = drop_all n xs (omega arith)

  -- The bytes before a splice's end are those before its start, and the bytes put in.
  pub take-splice :
      (xs : List A) (o : ℕ) (ys : List A)
      → o + length ys ≤ length xs
      → take (o + length ys) (splice xs o ys) ≡ take o xs ++ ys
  take-splice xs zero [] h = refl
  take-splice [] zero (y ∷ ys) h = absurd (omega arith)
  take-splice (x ∷ xs) zero (y ∷ ys) h = ground (arith, take-splice xs zero ys)
  take-splice [] (suc o) [] h = absurd (omega arith)
  take-splice [] (suc o) (y ∷ ys) h = absurd (omega arith)
  take-splice (x ∷ xs) (suc o) ys h =
      ap (λ t. take t (x ∷ splice xs o ys)) {x = suc o + length ys} {y = suc (o + length ys)}
        (omega arith)
      ∙ ap (λ t. x ∷ t) (take-splice xs o ys (omega arith))

  -- Behind its end a splice changes nothing.
  pub drop-splice :
      (xs : List A) (o : ℕ) (ys : List A) (n : ℕ)
      → o + length ys ≤ n
      → drop n (splice xs o ys) ≡ drop n xs
  drop-splice xs zero [] n h = refl
  drop-splice [] zero (y ∷ ys) n h = refl
  drop-splice (x ∷ xs) zero (y ∷ ys) zero h = absurd (omega arith)
  drop-splice (x ∷ xs) zero (y ∷ ys) (suc n) h = drop-splice xs zero ys n (omega arith)
  drop-splice [] (suc o) ys n h = refl
  drop-splice (x ∷ xs) (suc o) ys zero h = absurd (omega arith)
  drop-splice (x ∷ xs) (suc o) ys (suc n) h = drop-splice xs o ys n (omega arith)

  -- A slice that reaches from before a splice to its end.
  pub slice-splice_end :
      (xs : List A) (r o : ℕ) (ys : List A)
      → r ≤ o
      → o + length ys ≤ length xs
      → slice (splice xs o ys) r (o + length ys - r) ≡ slice xs r (o - r) ++ ys
  slice-splice_end xs zero o ys h l = ground (arith, take-splice xs o ys)
  slice-splice_end xs (suc r) zero ys h l = absurd (omega arith)
  slice-splice_end [] (suc r) (suc o) ys h l = absurd (omega arith)
  slice-splice_end (x ∷ xs) (suc r) (suc o) ys h l =
      ground (arith, slice-splice_end xs r o ys (omega arith) (omega arith))

  -- Before its start a splice changes nothing.
  pub take-splice_before :
      (xs : List A) (o : ℕ) (ys : List A) (n : ℕ) → n ≤ o → take n (splice xs o ys) ≡ take n xs
  take-splice_before xs o ys zero h = refl
  take-splice_before xs zero ys (suc n) h = absurd (omega arith)
  take-splice_before [] (suc o) ys (suc n) h = refl
  take-splice_before (x ∷ xs) (suc o) ys (suc n) h =
      ap (λ t. x ∷ t) (take-splice_before xs o ys n (omega arith))

  pub slice-splice_before :
      (xs : List A) (o : ℕ) (ys : List A) (r n : ℕ)
      → r + n ≤ o
      → slice (splice xs o ys) r n ≡ slice xs r n
  slice-splice_before xs o ys zero n h = take-splice_before xs o ys n (omega arith)
  slice-splice_before xs zero ys (suc r) n h = absurd (omega arith)
  slice-splice_before [] (suc o) ys (suc r) n h = refl
  slice-splice_before (x ∷ xs) (suc o) ys (suc r) n h =
      slice-splice_before xs o ys r n (omega arith)
