-- ===== src/Sculld.antt =====
-- The sculld devices, sculld/main.c: scull with quanta of whole pages, on a list of devices.
pub mod Trim
pub mod Transfers
pub mod Orders
pub mod Module
mod Tests
use linux_device_driver.Common.{
  ℕ, ◌+◌, ◌*◌, ◌%◌, ◌^◌, Bool, Option, none, some, List, [], ◌∷◌, if◌then◌else◌, ltb, ◌==◌, length,
  replicate,
}
use linux_device_driver.Kernel.{
  erestartsys, einval, ebusy, Ret, ok, err, Outcome, done, ◌>>=◌, Kernel, Call, Mem, kmalloc, kfree,
}
use linux_device_driver.Scull.Device.{Quantum, Qset, locate, free_slots}
use linux_device_driver.Scull.Transfer.{clip}
use linux_device_driver.Scull.File.{is_negative}
use linux_device_driver.Chain.{Store, Reply, reply, asked, read_at, write_at, free_next}

-- `struct sculld_dev`; `vmas` counts the mappings.
pub record Dev : Type 0 where
  pub store : Store
  pub vmas : ℕ
  pub order : ℕ

-- The module's parameters.
pub record Config : Type 0 where
  pub qset : ℕ
  pub order : ℕ

-- The order of an item: those on `next` were cleared, and nothing sets theirs.
abbrev pub item_order : Dev → ℕ → ℕ
item_order dev item = if item == 0 then dev.order else 0

-- `sculld_trim`: the array of one item with its quanta.
unfoldable pub free_data : ℕ → Qset → Mem → Outcome Mem
free_data qset none m = done m
free_data qset (some a) m = do m' ← free_slots qset a m; done (kfree m')

unfoldable pub trim : Config → Dev → Mem → Outcome (Ret × Dev × Mem)
trim g dev m =
    let emptied : Store = record { array = none; next = []; qset = g.qset; size = 0 } in
    if ltb 0 dev.vmas then done (err ebusy, dev, m) else do
      m' ← free_data dev.store.qset dev.store.array m
      m'' ← free_next (free_data dev.store.qset) dev.store.next m'
      done (ok 0, record dev { store = emptied; order = g.order }, m'')

-- `sculld_open`.
unfoldable pub open_dev :
    Config → (write_only interrupted : Bool) → Dev → Mem → Outcome (Ret × Dev × Mem)
open_dev g write_only interrupted dev m =
    if write_only
    then (if interrupted
        then done (err erestartsys, dev, m)
        else do t ← trim g dev m; done (ok 0, t.1, t.2))
    else done (ok 0, dev, m)

-- `sculld_llseek`: the result and the file's position.
unfoldable pub llseek : (size f_pos off whence : ℕ) → Ret × ℕ
llseek size f_pos off whence =
    let move =
      λ (newpos : ℕ). if is_negative newpos then (err einval, f_pos) else (ok newpos, newpos) in
    if whence == 0
    then move off
    else if whence == 1
    then move ((f_pos + off) % 2 ^ 64)
    else if whence == 2
    then move ((size + off) % 2 ^ 64)
    else (err einval, f_pos)

-- `page` is the kernel's PAGE_SIZE.
module _ (page : ℕ) where
  abbrev pub quantum_of : Dev → ℕ
  quantum_of dev = page * 2 ^ dev.order

  module _ (k : Kernel) where
    -- `sculld_read`.
    unfoldable pub read : Call → Dev → Mem → ℕ → ℕ → Outcome Reply
    read c dev m f_pos count =
        if c.interrupted then reply (err erestartsys) f_pos dev.store m else do
          p ← locate (quantum_of dev) dev.store.qset f_pos
          read_at k (quantum_of dev) c dev.store m f_pos p (asked dev.store.size f_pos count)

    -- The pages of a new quantum, of the item's order, are cleared.
    unfoldable pub get_pages : ℕ → Option Quantum → Mem → Outcome (Option Quantum × Mem)
    get_pages order (some b) m = done (some b, m)
    get_pages order none m =
        let (granted, m') = kmalloc k m in
        done (if granted then some (replicate (page * 2 ^ order) 0) else none, m')

    -- `sculld_write`.
    unfoldable pub write : Call → Dev → Mem → ℕ → List ℕ → Outcome Reply
    write c dev m f_pos buf =
        if c.interrupted then reply (err erestartsys) f_pos dev.store m else do
          p ← locate (quantum_of dev) dev.store.qset f_pos
          write_at k (get_pages (item_order dev p.item))
              (clip (quantum_of dev) p.q_pos (length buf)) c dev.store m f_pos p buf
