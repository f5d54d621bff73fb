-- ===== src/Scull/Transfer.antt =====
-- `scull_read` and `scull_write` of scull/main.c. A handler returns its result, the bytes that it
-- delivered to the user, the file position, the device and the allocator's books.
pub mod View
pub mod Write
pub mod Read
pub mod RoundTrip
pub mod PastEnd
use linux_device_driver.Common.{
  ℕ, ◌+◌, ◌-◌, ◌%◌, ◌^◌, Option, none, some, List, [], if◌then◌else◌, ltb, leb, ◌==◌, length,
  get_elem?, set, take, replicate, splice, slice,
}
use linux_device_driver.Kernel.{
  erestartsys, efault, enomem, Ret, ok, err, Outcome, done, oops, ◌>>=◌, deref, Kernel, Call, Mem,
  kmalloc,
}
use linux_device_driver.Scull.Device.{Quantum, Slots, Qset, Dev, Place, locate, follow}

pub record Reply : Type 0 where
  pub ret : Ret
  pub out : List ℕ
  pub f_pos : ℕ
  pub dev : Dev
  pub mem : Mem

-- What a read asks for after the check against the device's size, in 64-bit unsigned arithmetic.
unfoldable pub readable : ℕ → ℕ → ℕ → ℕ
readable size f_pos count =
    if leb size ((f_pos + count) % 2 ^ 64) then (size + 2 ^ 64 - f_pos) % 2 ^ 64 else count

-- `if (count > quantum - q_pos) count = quantum - q_pos;`
unfoldable pub clip : ℕ → ℕ → ℕ → ℕ
clip quantum q_pos count = if ltb (quantum - q_pos) count then quantum - q_pos else count

-- The copy to the user, out of one quantum; what a partial copy delivered is not kept.
unfoldable pub copy_out : Call → ℕ → Place → ℕ → Dev → Mem → Quantum → Outcome Reply
copy_out c f_pos p count dev m b =
    let n = clip dev.quantum p.q_pos count in
    if ltb (length b) (p.q_pos + n)
    then oops
    else if c.left == 0
    then done
        (record { ret = ok n; out = slice b p.q_pos n; f_pos = f_pos + n; dev = dev; mem = m })
    else done (record { ret = err efault; out = []; f_pos = f_pos; dev = dev; mem = m })

-- From the item on: a missing array or quantum reads as the end of the data.
unfoldable pub fetch : Call → ℕ → Place → ℕ → Dev → Mem → Qset → Outcome Reply
fetch c f_pos p count dev m none =
    done (record { ret = ok 0; out = []; f_pos = f_pos; dev = dev; mem = m })
fetch c f_pos p count dev m (some a) = do
  slot ← deref (get_elem? a p.s_pos)
  elim slot [
    | none ↦ done (record { ret = ok 0; out = []; f_pos = f_pos; dev = dev; mem = m })
    | some b ↦ copy_out c f_pos p count dev m b
  ]

module _ (k : Kernel) where
  unfoldable pub read : Call → Dev → Mem → ℕ → ℕ → Outcome Reply
  read c dev m f_pos count =
      if c.interrupted
      then done (record { ret = err erestartsys; out = []; f_pos = f_pos; dev = dev; mem = m })
      else do
        p ← locate dev.quantum dev.qset f_pos
        let (found, items, m') = follow k p.item dev.items m
        let dev' = record dev { items = items }
        if found
            then (do
              q ← deref (get_elem? items p.item)
              fetch c f_pos p (readable dev.size f_pos count) dev' m' q)
            else done (record { ret = ok 0; out = []; f_pos = f_pos; dev = dev'; mem = m' })

  -- `if (!dptr->data) { kmalloc; memset 0 }`
  unfoldable pub claim_slots : ℕ → Qset → Mem → Option Slots × Mem
  claim_slots qset (some a) m = (some a, m)
  claim_slots qset none m =
      let (granted, m') = kmalloc k m in (if granted then some (replicate qset none) else none, m')

  -- `if (!dptr->data[s_pos]) kmalloc(quantum)`: the bytes of a new quantum are not cleared.
  unfoldable pub claim_quantum : ℕ → Option Quantum → Mem → Option Quantum × Mem
  claim_quantum quantum (some b) m = (some b, m)
  claim_quantum quantum none m =
      let (granted, m') = kmalloc k m in
      (if granted then some (k.junk m.requests quantum) else none, m')

  -- The copy from the user into one quantum, and the new position and size.
  unfoldable pub copy_in : Call → ℕ → Place → List ℕ → Dev → Slots → Mem → Quantum → Outcome Reply
  copy_in c f_pos p buf dev a m b =
      let n = clip dev.quantum p.q_pos (length buf) in
      let b' = splice b p.q_pos (k.copied c.left (take n buf)) in
      let items = set dev.items p.item (some (set a p.s_pos (some b'))) in
      let f_pos' = f_pos + n in
      let size = if ltb dev.size f_pos' then f_pos' else dev.size in
      if ltb (length b) (p.q_pos + n)
      then oops
      else if c.left == 0
      then done (record {
        ret = ok n;
        out = [];
        f_pos = f_pos';
        dev = record dev { items = items; size = size };
        mem = m;
      })
      else done (record {
        ret = err efault;
        out = [];
        f_pos = f_pos;
        dev = record dev { items = items };
        mem = m;
      })

  unfoldable pub store : Call → ℕ → Place → List ℕ → Dev → Mem → Slots → Outcome Reply
  store c f_pos p buf dev m a = do
    slot ← deref (get_elem? a p.s_pos)
    let (block, m') = claim_quantum dev.quantum slot m
    elim block [
      | none ↦ done (record {
        ret = err enomem;
        out = [];
        f_pos = f_pos;
        dev = record dev { items = set dev.items p.item (some a) };
        mem = m';
      })
      | some b ↦ copy_in c f_pos p buf dev a m' b
    ]

  unfoldable pub store_item : Call → ℕ → Place → List ℕ → Dev → Mem → Qset → Outcome Reply
  store_item c f_pos p buf dev m q =
      let (slots, m') = claim_slots dev.qset q m in
      elim slots [
        | none ↦ done (record { ret = err enomem; out = []; f_pos = f_pos; dev = dev; mem = m' })
        | some a ↦ store c f_pos p buf dev m' a
      ]

  unfoldable pub write : Call → Dev → Mem → ℕ → List ℕ → Outcome Reply
  write c dev m f_pos buf =
      if c.interrupted
      then done (record { ret = err erestartsys; out = []; f_pos = f_pos; dev = dev; mem = m })
      else do
        p ← locate dev.quantum dev.qset f_pos
        let (found, items, m') = follow k p.item dev.items m
        let dev' = record dev { items = items }
        if found
            then (do q ← deref (get_elem? items p.item); store_item c f_pos p buf dev' m' q)
            else done (record { ret = err enomem; out = []; f_pos = f_pos; dev = dev'; mem = m' })
