-- ===== src/Scull/Transfer/View.antt =====
-- A device as a flat file: the byte that the store holds at a position.
use linux_device_driver.Common.{
  ◌+◌, ◌-◌, ◌≤◌, ◌<◌, min, ℕ, zero, suc, ◌+◌, ◌≡◌, ◌≢◌, ◌<◌, refl, ap, inl, inr, Option, none, some,
  List, [], ◌∷◌, arith, length, get_elem?, set, get_elem?-set_self, get_elem?-some, ◌⊎◌,
  get_elem?-set_ne, replicate, ◌==◌, Bool-cases,
}
use linux_device_driver.Scull.Device.{Quantum, Slots, Qset, Dev, blocks, item_blocks, slot_blocks}
use linux_device_driver.Scull.Device.Follow.{byte_of, slot_of, item_of, byte_at}
use linux_device_driver.Scull.Transfer.{clip}
use linux_device_driver.Scull.Device.Locate.{place_of}

-- The byte that the device holds at a position; nothing where no quantum stands there.
abbrev pub content : Dev → ℕ → Option ℕ
content dev pos =
    let p = place_of dev.quantum dev.qset pos in byte_at dev.items p.item p.s_pos p.q_pos

pub item_of-get_elem? :
    (items : List Qset) (i : ℕ) {q : Qset} → get_elem? items i ≡ some q → item_of items i ≡ q
item_of-get_elem? [] i e = ground arith
item_of-get_elem? (x ∷ items) zero e = ground arith
item_of-get_elem? (x ∷ items) (suc i) e = item_of-get_elem? items i e

pub item_of-set_self :
    (items : List Qset) (i : ℕ) (q : Qset) → i < length items → item_of (set items i q) i ≡ q
item_of-set_self [] i q h = elim h [ ]
item_of-set_self (x ∷ items) zero q h = refl
item_of-set_self (x ∷ items) (suc i) q h = item_of-set_self items i q (omega arith)

pub item_of-set_ne :
    (items : List Qset) (i j : ℕ) (q : Qset) → i ≢ j → item_of (set items i q) j ≡ item_of items j
item_of-set_ne [] i j q h = refl
item_of-set_ne (x ∷ items) zero zero q h = absurd (h refl)
item_of-set_ne (x ∷ items) zero (suc j) q h = refl
item_of-set_ne (x ∷ items) (suc i) zero q h = refl
item_of-set_ne (x ∷ items) (suc i) (suc j) q h = item_of-set_ne items i j q (λ e. h (ap suc e))

pub slot_of-some :
    (a : Slots) (s : ℕ) {q : Option Quantum} → get_elem? a s ≡ some q → slot_of (some a) s ≡ q
slot_of-some a s e = ground arith

pub slot_of-set_self :
    (a : Slots) (s : ℕ) (q : Option Quantum) → s < length a → slot_of (some (set a s q)) s ≡ q
slot_of-set_self a s q h = slot_of-some (set a s q) s (get_elem?-set_self a s q h)

pub slot_of-set_ne :
    (a : Slots) (s t : ℕ) (q : Option Quantum)
    → s ≢ t
    → slot_of (some (set a s q)) t ≡ slot_of (some a) t
slot_of-set_ne a s t q h = rw (get_elem?-set_ne a s t q h, slot_of)

-- A byte at one place survives the replacement of an item, if the new item still holds it.
pub byte_at-set_item :
    (items : List Qset) (i : ℕ) (q : Qset) (j s o v : ℕ)
    → i < length items
    → (i ≡ j → byte_of (slot_of (item_of items i) s) o ≡ some v → byte_of (slot_of q s) o ≡ some v)
    → byte_at items j s o ≡ some v
    → byte_at (set items i q) j s o ≡ some v
byte_at-set_item items i q j s o v h x e = elim (Bool-cases (i == j)) [
  | inl same ↦
      let same' : i ≡ j = ground arith in
      rw (← same', item_of-set_self items i q h) (x same' (rw same' e))
  | inr other ↦ rw (item_of-set_ne items i j q (ground arith)) e
]

-- The blocks of a store with one item replaced.
pub blocks-set :
    (items : List Qset) (i : ℕ) (q : Qset)
    → i < length items
    → blocks (set items i q) + item_blocks (item_of items i) ≡ blocks items + item_blocks q
blocks-set [] i q h = elim h [ ]
blocks-set (x ∷ items) zero q h = omega arith
blocks-set (x ∷ items) (suc i) q h = omega (arith, blocks-set items i q (omega arith))

pub slot_blocks-set-none :
    (a : Slots) (s : ℕ) (b : Quantum)
    → get_elem? a s ≡ some none
    → slot_blocks (set a s (some b)) ≡ slot_blocks a + 1
slot_blocks-set-none [] s b e = absurd (ground arith)
slot_blocks-set-none (none ∷ a) zero b e = omega arith
slot_blocks-set-none (some x ∷ a) zero b e = absurd (ground arith)
slot_blocks-set-none (none ∷ a) (suc s) b e = slot_blocks-set-none a s b e
slot_blocks-set-none (some x ∷ a) (suc s) b e = omega (arith, slot_blocks-set-none a s b e)

pub slot_blocks-set-some :
    (a : Slots) (s : ℕ) (b : Quantum) {x : Quantum}
    → get_elem? a s ≡ some (some x)
    → slot_blocks (set a s (some b)) ≡ slot_blocks a
slot_blocks-set-some [] s b e = absurd (ground arith)
slot_blocks-set-some (none ∷ a) zero b e = absurd (ground arith)
slot_blocks-set-some (some x ∷ a) zero b e = omega arith
slot_blocks-set-some (none ∷ a) (suc s) b e = slot_blocks-set-some a s b e
slot_blocks-set-some (some x ∷ a) (suc s) b e = omega (arith, slot_blocks-set-some a s b e)

pub slot_blocks-replicate : (n : ℕ) → slot_blocks (replicate n none) ≡ 0
slot_blocks-replicate zero = refl
slot_blocks-replicate (suc n) = slot_blocks-replicate n

-- An entry of an array is null, or points at a quantum.
pub slot_cases :
    (a : Slots) (s : ℕ)
    → s < length a
    → (get_elem? a s ≡ some none) ⊎ ((b : Quantum) × (get_elem? a s ≡ some (some b)))
slot_cases a s h = let (q, e) = get_elem?-some a s h in sort q e
  where
    sort :
        (q : Option Quantum)
        → get_elem? a s ≡ some q
        → (get_elem? a s ≡ some none) ⊎ ((b : Quantum) × (get_elem? a s ≡ some (some b)))
    sort none e = inl e
    sort (some b) e = inr (b, e)

pub clip-add-le : (quantum q count : ℕ) → q < quantum → q + clip quantum q count ≤ quantum
unfolding clip
clip-add-le quantum q count h = ground arith

pub clip-le : (quantum q count : ℕ) → clip quantum q count ≤ count
unfolding clip
clip-le quantum q count = ground arith

pub clip-min : (quantum q count : ℕ) → clip quantum q count ≡ min count (quantum - q)
unfolding clip
clip-min quantum q count = ground arith
