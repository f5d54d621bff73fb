-- ===== src/Common/Arith.antt =====
-- Division with remainder by a variable.
use Prim.Native.Nat.{ℕ, zero, suc, ◌+◌, ◌*◌, ◌/◌, ◌%◌, ◌<◌, ◌≤◌}
use mathlib.Core.Path.{◌≡◌}
use native.Mathlib.Omega.{arith}
use native.Mathlib.Decide.{dec_lt}

pub div_lt_of_lt_mul : (a b c : ℕ) → a < b * c → a / b < c
div_lt_of_lt_mul a b c h = grind arith

pub mod_lt_of_pos : (a b : ℕ) → 0 < b → a % b < b
mod_lt_of_pos a b h = omega arith

pub div-mod-split : (a b : ℕ) → a / b * b + a % b ≡ a
div-mod-split a b = grind arith

-- A row further on starts behind every place of this one.
row_lt : (i j b r s : ℕ) → r < b → i < j → i * b + r < j * b + s
row_lt i j b r s h l = grind arith

-- A number has one row and one place in it.
pub row_unique : (i j b r s : ℕ) → r < b → s < b → i * b + r ≡ j * b + s → (i ≡ j) × (r ≡ s)
row_unique i j b r s hr hs e = elim (dec_lt i j) [
  | yes p ↦ absurd (omega (arith, row_lt i j b r s hr p))
  | no p ↦ elim (dec_lt j i) [
    | yes q ↦ absurd (omega (arith, row_lt j i b s r hs q))
    | no q ↦ let same : i ≡ j = omega arith in (same, grind arith)
  ]
]

pub div_of_row : (i b r : ℕ) → r < b → (i * b + r) / b ≡ i
div_of_row i b r h =
    (row_unique ((i * b + r) / b) i b ((i * b + r) % b) r (omega arith) h
      (div-mod-split (i * b + r) b)).0

pub mod_of_row : (i b r : ℕ) → r < b → (i * b + r) % b ≡ r
mod_of_row i b r h =
    (row_unique ((i * b + r) / b) i b ((i * b + r) % b) r (omega arith) h
      (div-mod-split (i * b + r) b)).1

pub mod_small : (a b : ℕ) → a < b → a % b ≡ a
mod_small a b h =
    (row_unique (a / b) 0 b (a % b) a (omega arith) h (omega (arith, div-mod-split a b))).1

pub le_of_mul_pos : (a b : ℕ) → 0 < a * b → a ≤ a * b
le_of_mul_pos a zero h = absurd (omega arith)
le_of_mul_pos a (suc b) h = grind arith
