-- ===== src/Scullc.antt =====
-- The scullc devices, scullc/main.c and scullc/scullc.h: scull with quanta from a slab cache, on a
-- list of devices. The source spells some names in two ways, `rest` as `reset` in `scullc_read` and
-- `scullc_trim` as `sculc_trim`; each pair is taken for one.
pub mod Transfers
pub mod Faults
pub mod Trim
pub mod Module
pub mod Ioctl
mod Tests
use linux_device_driver.Common.{
  ℕ, zero, suc, ◌+◌, ◌-◌, ◌*◌, ◌%◌, ◌^◌, Bool, true, false, Option, none, some, List, [], ◌∷◌, ◌&&◌,
  if◌then◌else◌, ltb, ◌==◌, length, get_elem?, replicate, splice,
}
use linux_device_driver.Kernel.{
  erestartsys, einval, Ret, ok, err, Outcome, done, oops, ◌>>=◌, deref, Kernel, Call, Mem, kmalloc,
}
use linux_device_driver.Scull.Device.{Quantum, Slots, Qset, Place, locate, free_slots}
use linux_device_driver.Scull.Transfer.{clip}
use linux_device_driver.Scull.File.{is_negative}
use linux_device_driver.Chain.{Store, Reply, reply, asked, read_at, write_at, free_next}

-- `struct scullc_dev`. The entries that `stale` names in the first item's array were freed by a
-- trim, which left the array in place.
pub record Dev : Type 0 where
  pub store : Store
  pub quantum : ℕ
  pub stale : Qset

-- The module's parameters, and the size of the objects of its cache, which was `quantum` when the
-- module was loaded.
pub record Config : Type 0 where
  pub quantum : ℕ
  pub qset : ℕ
  pub object : ℕ

-- Whether one of the first entries of an array is set.
unfoldable pub any_set : ℕ → Slots → Bool
any_set zero a = false
any_set (suc n) [] = false
any_set (suc n) (none ∷ a) = any_set n a
any_set (suc n) (some b ∷ a) = true

-- Whether a place lies in a quantum that was freed.
unfoldable pub is_stale : Qset → Place → Bool
is_stale none p = false
is_stale (some a) p = (p.item == 0) && elim (get_elem? a p.s_pos) [
  | none ↦ false
  | some q ↦ elim q [ none ↦ false | some b ↦ true ]
]

-- `sculc_trim`: the quanta of one item. No array is given back.
unfoldable pub free_data : ℕ → Qset → Mem → Outcome Mem
free_data qset none m = done m
free_data qset (some a) m = free_slots qset a m

-- A quantum of the first item that was freed before is freed again.
unfoldable pub trim : Config → Dev → Mem → Outcome (Dev × Mem)
trim g dev m =
    let emptied : Store = record dev.store { next = []; qset = g.qset; size = 0 } in
    let again : Bool = elim dev.stale [ none ↦ false | some a ↦ any_set dev.store.qset a ] in
    let freeing = (do
      m' ← free_data dev.store.qset dev.store.array m
      m'' ← free_next (free_data dev.store.qset) dev.store.next m'
      done (record { store = emptied; quantum = g.quantum; stale = dev.store.array }, m'')) in
    if again then oops else freeing

-- `scullc_open`.
unfoldable pub open_dev :
    Config → (write_only interrupted : Bool) → Dev → Mem → Outcome (Ret × Dev × Mem)
open_dev g write_only interrupted dev m =
    if write_only
    then (if interrupted
        then done (err erestartsys, dev, m)
        else do t ← trim g dev m; done (ok 0, t.0, t.1))
    else done (ok 0, dev, m)

-- `scullc_llseek`: the second case falls through into the third.
unfoldable pub llseek : (size f_pos off whence : ℕ) → Ret × ℕ
llseek size f_pos off whence =
    let move =
      λ (newpos : ℕ). if is_negative newpos then (err einval, f_pos) else (ok newpos, newpos) in
    if whence == 0
    then move off
    else if whence == 1
    then move ((size + off) % 2 ^ 64)
    else if whence == 2
    then move ((size + off) % 2 ^ 64)
    else (err einval, f_pos)

-- `if (count > quantum - q_pos) count = quantum - q_pos;`, where the difference is an `int` that the
-- comparison takes for a `size_t`.
unfoldable pub clip_write : ℕ → ℕ → ℕ → ℕ
clip_write quantum q_pos count =
    let room = (quantum + 2 ^ 64 - q_pos) % 2 ^ 64 in if ltb room count then room else count

module _ (k : Kernel) where
  -- `scullc_read`.
  unfoldable pub read : Call → Dev → Mem → ℕ → ℕ → Outcome Reply
  read c dev m f_pos count =
      let locating = (do
        p ← locate dev.quantum dev.store.qset f_pos
        let n = asked dev.store.size f_pos count
        if is_stale dev.stale p && ltb 0 (clip dev.quantum p.q_pos n)
            then oops
            else read_at k dev.quantum c dev.store m f_pos p n) in
      if c.interrupted
      then reply (err erestartsys) f_pos dev.store m
      else if ltb dev.store.size f_pos
      then reply (ok 0) f_pos dev.store m
      else locating

  -- An object of the cache; as many bytes of it are cleared as the parameter `scullc_quantum` says,
  -- which are more than it has where the parameter was raised.
  unfoldable pub cache_alloc : Config → Option Quantum → Mem → Outcome (Option Quantum × Mem)
  cache_alloc g (some b) m = done (some b, m)
  cache_alloc g none m =
      let (granted, m') = kmalloc k m in
      let cleared = splice (k.junk m.requests g.object) 0 (replicate g.quantum 0) in
      if granted
      then (if ltb g.object g.quantum then oops else done (some cleared, m'))
      else done (none, m')

  -- `scullc_write`: the offset in the quantum is taken in the whole item.
  unfoldable pub write : Config → Call → Dev → Mem → ℕ → List ℕ → Outcome Reply
  write g c dev m f_pos buf =
      if c.interrupted then reply (err erestartsys) f_pos dev.store m else do
        spot ← locate dev.quantum dev.store.qset f_pos
        let p = record spot {
          q_pos = f_pos % (dev.quantum * dev.store.qset) % (dev.quantum * dev.store.qset);
        }
        let n = clip_write dev.quantum p.q_pos (length buf)
        if is_stale dev.stale p && ltb 0 n
            then oops
            else write_at k (cache_alloc g) n c dev.store m f_pos p buf
