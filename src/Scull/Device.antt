-- ===== src/Scull/Device.antt =====
-- The store of a scull device, scull/main.c: `scull_trim`, `scull_follow`, and the place of a
-- position in the store, which `scull_read` and `scull_write` compute in the same words.
pub mod Trim
pub mod Follow
pub mod Locate
use linux_device_driver.Common.{
  ℕ, zero, suc, ◌+◌, ◌-◌, ◌*◌, ◌/◌, ◌%◌, ◌^◌, ◌≡◌, ◌≤◌, ◌<◌, Bool, true, false, Option, none, some,
  List, [], ◌∷◌, ◌&&◌, if◌then◌else◌, ltb, length, All,
}
use linux_device_driver.Kernel.{Outcome, done, oops, ◌>>=◌, Kernel, Mem, kmalloc, kfree, kfree?}

-- One quantum is a block of bytes, the array of a quantum set holds pointers to quanta, and a
-- `struct scull_qset` is its pointer `data` to such an array; its `next` is the list's tail.
abbrev pub Quantum : Type 0
Quantum = List ℕ

abbrev pub Slots : Type 0
Slots = List (Option Quantum)

abbrev pub Qset : Type 0
Qset = Option Slots

-- `struct scull_dev`; its semaphore is held across each operation.
pub record Dev : Type 0 where
  pub items : List Qset
  pub quantum : ℕ
  pub qset : ℕ
  pub size : ℕ
  pub access_key : ℕ

-- The module's parameters that `ioctl` can set.
pub record Config : Type 0 where
  pub quantum : ℕ
  pub qset : ℕ
  pub p_buffer : ℕ

-- `for (i = 0; i < qset; i++) kfree(dptr->data[i]);`
unfoldable pub free_slots : ℕ → Slots → Mem → Outcome Mem
free_slots zero a m = done m
free_slots (suc n) [] m = oops
free_slots (suc n) (q ∷ a) m = free_slots n a (kfree? q m)

-- The loop over the list: the quanta of an item, its array, and the item.
unfoldable pub free_items : ℕ → List Qset → Mem → Outcome Mem
free_items qset [] m = done m
free_items qset (none ∷ qs) m = free_items qset qs (kfree m)
free_items qset (some a ∷ qs) m = do m' ← free_slots qset a m; free_items qset qs (kfree (kfree m'))

unfoldable pub trim : Config → Dev → Mem → Outcome (Dev × Mem)
trim c dev m = do
  m' ← free_items dev.qset dev.items m
  done (record dev { items = []; size = 0; quantum = c.quantum; qset = c.qset }, m')

module _ (k : Kernel) where
  -- `scull_follow`: whether the n-th item was reached, the list with the items that were added on
  -- the way, and the allocator's books.
  unfoldable pub follow : ℕ → List Qset → Mem → Bool × List Qset × Mem
  follow zero (q ∷ qs) m = (true, q ∷ qs, m)
  follow zero [] m =
      let (granted, m') = kmalloc k m in if granted then (true, none ∷ [], m') else (false, [], m')
  follow (suc n) (q ∷ qs) m = let (found, qs', m') = follow n qs m in (found, q ∷ qs', m')
  follow (suc n) [] m =
      let (granted, m') = kmalloc k m in
      let rest = follow n [] m' in
      if granted then (rest.0, none ∷ rest.1, rest.2) else (false, [], m')

-- Item of the list, index in its array, offset in the quantum.
pub record Place : Type 0 where
  pub item : ℕ
  pub s_pos : ℕ
  pub q_pos : ℕ

-- The values that an `int` holds from 0 on.
abbrev pub int_max : ℕ
int_max = 2 ^ 31 - 1

-- Undefined where `itemsize` is 0 or overflows, or the item's number does not fit its `int`.
unfoldable pub locate : ℕ → ℕ → ℕ → Outcome Place
locate quantum qset f_pos =
    let itemsize = quantum * qset in
    let item = f_pos / itemsize in
    let rest = f_pos % itemsize in
    if ltb 0 itemsize && ltb itemsize (2 ^ 31) && ltb item (2 ^ 31)
    then done (record { item = item; s_pos = rest / quantum; q_pos = rest % quantum })
    else oops

-- The blocks that a store holds.
abbrev pub slot_blocks : Slots → ℕ
slot_blocks [] = 0
slot_blocks (none ∷ a) = slot_blocks a
slot_blocks (some b ∷ a) = suc (slot_blocks a)

abbrev pub item_blocks : Qset → ℕ
item_blocks none = 1
item_blocks (some a) = 2 + slot_blocks a

abbrev pub blocks : List Qset → ℕ
blocks [] = 0
blocks (q ∷ qs) = item_blocks q + blocks qs

-- Every array has `qset` entries, and every quantum `quantum` bytes.
abbrev pub SlotFits : ℕ → Option Quantum → Type 0
SlotFits quantum none = Unit
SlotFits quantum (some b) = length b ≡ quantum

abbrev pub QsetFits : ℕ → ℕ → Qset → Type 0
QsetFits quantum qset none = Unit
QsetFits quantum qset (some a) = (length a ≡ qset) × All (SlotFits quantum) a

pub record IsValid (dev : Dev) : Type 0 where
  pub shaped : All (QsetFits dev.quantum dev.qset) dev.items
  pub some_bytes : 0 < dev.quantum * dev.qset
  pub int_sized : dev.quantum * dev.qset ≤ int_max
