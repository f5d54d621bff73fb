-- ===== src/Chain.antt =====
-- What scullc/main.c and sculld/main.c have in common, in the same words: a list of devices in place
-- of quantum sets, of which the device itself is the first item, and the transfers on it.
pub mod Walk
pub mod AsScull
pub mod Transfers
use linux_device_driver.Common.{
  ℕ, zero, suc, ◌+◌, ◌-◌, ◌%◌, ◌^◌, Bool, Option, none, some, List, [], ◌∷◌, if◌then◌else◌, ltb,
  ◌==◌, length, get_elem?, set, take, splice, slice,
}
use linux_device_driver.Kernel.{
  efault, enomem, Ret, ok, err, Outcome, done, oops, ◌>>=◌, deref, Kernel, Call, Mem, kmalloc,
  kfree,
}
use linux_device_driver.Scull.Device.{Quantum, Slots, Qset, Place}
use linux_device_driver.Scull.Transfer.{clip, claim_slots}

-- What a transfer works on, of `struct sculld_dev` and of `struct scullc_dev`: the pointer `data`,
-- the items on `next`, of which only `data` is kept, `qset` and `size`.
pub record Store : Type 0 where
  pub array : Qset
  pub next : List Qset
  pub qset : ℕ
  pub size : ℕ

pub record Reply : Type 0 where
  pub ret : Ret
  pub out : List ℕ
  pub f_pos : ℕ
  pub store : Store
  pub mem : Mem

abbrev pub reply : Ret → ℕ → Store → Mem → Outcome Reply
reply r f_pos s m = done (record { ret = r; out = []; f_pos = f_pos; store = s; mem = m })

-- `sculld_follow` and `scullc_follow`: the list on `next` with the items that were added on the
-- way. A new item is cleared before the allocator's answer is looked at.
unfoldable pub walk : Kernel → ℕ → List Qset → Mem → Outcome (List Qset × Mem)
walk k zero next m = done (next, m)
walk k (suc n) (q ∷ next) m = do (next', m') ← walk k n next m; done (q ∷ next', m')
walk k (suc n) [] m =
    let (granted, m') = kmalloc k m in
    let rest = (do (next', m'') ← walk k n [] m'; done (none ∷ next', m'')) in
    if granted then rest else oops

-- `if (*f_pos + count > dev->size) count = dev->size - *f_pos;`
unfoldable pub asked : ℕ → ℕ → ℕ → ℕ
asked size f_pos count =
    if ltb size ((f_pos + count) % 2 ^ 64) then (size + 2 ^ 64 - f_pos) % 2 ^ 64 else count

-- The copy to the user, out of one quantum; what a partial copy delivered is not kept.
unfoldable pub copy_out : ℕ → Call → ℕ → Place → ℕ → Store → Mem → Quantum → Outcome Reply
copy_out quantum c f_pos p count s m b =
    let n = clip quantum p.q_pos count in
    if ltb (length b) (p.q_pos + n)
    then oops
    else if c.left == 0
    then done
        (record { ret = ok n; out = slice b p.q_pos n; f_pos = f_pos + n; store = s; mem = m })
    else reply (err efault) f_pos s m

unfoldable pub fetch : ℕ → Call → ℕ → Place → ℕ → Store → Mem → Qset → Outcome Reply
fetch quantum c f_pos p count s m none = reply (ok 0) f_pos s m
fetch quantum c f_pos p count s m (some a) = do
  slot ← deref (get_elem? a p.s_pos)
  elim slot [ none ↦ reply (ok 0) f_pos s m | some b ↦ copy_out quantum c f_pos p count s m b ]

-- The device with the array of an item replaced.
unfoldable pub put_data : Store → ℕ → Slots → Store
put_data s zero a = record s { array = some a }
put_data s (suc item) a = record s { next = set s.next item (some a) }

module _ (k : Kernel) where
  -- A read from the walk on, of `count` bytes at most.
  unfoldable pub read_at : ℕ → Call → Store → Mem → ℕ → Place → ℕ → Outcome Reply
  read_at quantum c s m f_pos p count = do
    (next, m') ← walk k p.item s.next m
    q ← deref (get_elem? (s.array ∷ next) p.item)
    fetch quantum c f_pos p count (record s { next = next }) m' q

  -- The copy from the user of `n` bytes into one quantum, and the new position and size.
  unfoldable pub copy_in :
      ℕ → Call → ℕ → Place → List ℕ → Store → Slots → Mem → Quantum → Outcome Reply
  copy_in n c f_pos p buf s a m b =
      let b' = splice b p.q_pos (k.copied c.left (take n buf)) in
      let s' = put_data s p.item (set a p.s_pos (some b')) in
      let f_pos' = f_pos + n in
      if ltb (length b) (p.q_pos + n)
      then oops
      else if c.left == 0
      then reply (ok n) f_pos' (record s' { size = if ltb s.size f_pos' then f_pos' else s.size }) m
      else reply (err efault) f_pos s' m

  -- `alloc` is how the driver gets a quantum where there is none.
  module _ (alloc : Option Quantum → Mem → Outcome (Option Quantum × Mem)) (n : ℕ) where
    unfoldable pub store : Call → ℕ → Place → List ℕ → Store → Mem → Slots → Outcome Reply
    store c f_pos p buf s m a = do
      slot ← deref (get_elem? a p.s_pos)
      (block, m') ← alloc slot m
      elim block [
        | none ↦ reply (err enomem) f_pos (put_data s p.item a) m'
        | some b ↦ copy_in n c f_pos p buf s a m' b
      ]

    unfoldable pub store_item : Call → ℕ → Place → List ℕ → Store → Mem → Qset → Outcome Reply
    store_item c f_pos p buf s m q =
        let (slots, m') = claim_slots k s.qset q m in
        elim slots [ none ↦ reply (err enomem) f_pos s m' | some a ↦ store c f_pos p buf s m' a ]

    -- A write from the walk on.
    unfoldable pub write_at : Call → Store → Mem → ℕ → Place → List ℕ → Outcome Reply
    write_at c s m f_pos p buf = do
      (next, m') ← walk k p.item s.next m
      q ← deref (get_elem? (s.array ∷ next) p.item)
      store_item c f_pos p buf (record s { next = next }) m' q

-- The loop of `sculld_trim` and `sculc_trim` over the items behind the first; `free_data` frees
-- what an item's array holds.
unfoldable pub free_next : (Qset → Mem → Outcome Mem) → List Qset → Mem → Outcome Mem
free_next free_data [] m = done m
free_next free_data (q ∷ next) m = do m' ← free_data q m; free_next free_data next (kfree m')

-- The blocks of a device, with one for itself.
abbrev pub held : Store → ℕ
held s = linux_device_driver.Scull.Device.blocks (s.array ∷ s.next)
