-- ===== src/Scull/Transfer/Write.antt =====
-- What `scull_write` does to the store, by places; `Write/Flat` says it by positions.
mod Copy
mod Claim
pub mod Flat
use linux_device_driver.Common.{
  ℕ, ◌+◌, ◌-◌, ◌≡◌, ◌≢◌, ◌≤◌, ◌<◌, refl, sym, ap, ◌∙◌, ◌⊎◌, inl, inr, Bool, true, false, Option,
  none, some, List, arith, length, get_elem?, set, take, splice, All, Bool-cases, lt→ltb, ltb, leb,
  ◌==◌, if◌then◌else◌, max, min, length-take, length-splice, get_elem?-splice_in,
  get_elem?-splice_out, length-set, All-set,
}
use linux_device_driver.Kernel.{
  Kernel, Call, Errno, efault, Ret, ok, err, done, Kernel, Call, Mem, Holds,
}
use linux_device_driver.Kernel.Ledger.{Cause, Balanced}
use linux_device_driver.Scull.Device.{Quantum, Slots, Dev, Place, SlotFits, QsetFits, blocks}
use linux_device_driver.Scull.Device.Follow.{byte_of, slot_of, item_of, byte_at}
use linux_device_driver.Scull.Transfer.{Reply, clip, copy_in}
use linux_device_driver.Scull.Transfer.View.{
  byte_at-set_item, item_of-set_self, slot_of-set_self, slot_of-set_ne,
}

-- Item `j`, index `s`, offset `o` is none of the `n` places from `p` on.
abbrev pub Outside : ℕ → Place → ℕ → ℕ → ℕ → Type 0
Outside n p j s o = (p.item ≢ j) ⊎ ((p.s_pos ≢ s) ⊎ ((o < p.q_pos) ⊎ (p.q_pos + n ≤ o)))

module _ (k : Kernel) (c : Call) (f_pos : ℕ) (p : Place) (buf : List ℕ) where
  -- The call wrote `n` bytes: they stand at the place and behind it, and the size covers them.
  pub record Wrote (n : ℕ) (dev : Dev) (r : Reply) : Type 0 where
    pub ret_is : r.ret ≡ ok n
    pub pos_is : r.f_pos ≡ f_pos + n
    pub size_is : r.dev.size ≡ max dev.size (f_pos + n)
    pub bytes : (j : ℕ) → j < n → byte_at r.dev.items p.item p.s_pos (p.q_pos + j) ≡ get_elem? buf j

  -- The call failed: position and size are as they were.
  pub record Failed (dev : Dev) (r : Reply) : Type 0 where
    pub error : Errno
    pub ret_is : r.ret ≡ err error
    pub cause : Cause k c error
    pub pos_is : r.f_pos ≡ f_pos
    pub size_is : r.dev.size ≡ dev.size

  pub record Effect (m : Mem) (b : ℕ) (dev : Dev) (r : Reply) : Type 0 where
    pub quantum_same : r.dev.quantum ≡ dev.quantum
    pub qset_same : r.dev.qset ≡ dev.qset
    pub shaped : All (QsetFits dev.quantum dev.qset) r.dev.items
    pub balanced : Balanced m r.mem b (blocks r.dev.items)
    pub kept :
        (j s o v : ℕ)
        → Outside (clip dev.quantum p.q_pos (length buf)) p j s o
        → byte_at dev.items j s o ≡ some v
        → byte_at r.dev.items j s o ≡ some v
    pub outcome : Wrote (clip dev.quantum p.q_pos (length buf)) dev r ⊎ Failed dev r

-- The state in which `copy_from_user` runs: the array `a` and the quantum `b` stand at the place.
pub record Ready (p : Place) (m : Mem) (n : ℕ) (dev : Dev) (m' : Mem) (a : Slots) (b : Quantum)
    : Type 0 where
  pub shaped : All (QsetFits dev.quantum dev.qset) dev.items
  pub item_in : p.item < length dev.items
  pub slots_fit : length a ≡ dev.qset
  pub all_fit : All (SlotFits dev.quantum) a
  pub s_in : p.s_pos < dev.qset
  pub q_in : p.q_pos < dev.quantum
  pub block_fits : length b ≡ dev.quantum
  pub slots_keep :
      (s o v : ℕ)
      → byte_of (slot_of (item_of dev.items p.item) s) o ≡ some v
      → byte_of (slot_of (some a) s) o ≡ some v
  pub block_keeps :
      (o v : ℕ)
      → byte_of (slot_of (item_of dev.items p.item) p.s_pos) o ≡ some v
      → get_elem? b o ≡ some v
  pub balanced :
      (b' : Quantum)
      → Balanced m m' n (blocks (set dev.items p.item (some (set a p.s_pos (some b')))))
