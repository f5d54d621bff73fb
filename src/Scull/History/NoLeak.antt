-- ===== src/Scull/History/NoLeak.antt =====
-- No history of calls leaks a block or breaks the device.
use linux_device_driver.Common.{ℕ, ◌+◌, ◌≡◌, ap, Bool, true, false, [], arith}
use linux_device_driver.Kernel.{
  Kernel, Mem, Outcome, done, oops, Ret, ok, ◌>>=◌, Holds, Holds-mono, Holds-done,
}
use linux_device_driver.Kernel.Ledger.{Balanced, Moves}
use linux_device_driver.Scull.Device.{Dev, Config, blocks, IsValid, trim}
use linux_device_driver.Scull.Device.Trim.{trim_lem}
use linux_device_driver.Scull.Transfer.{read, write}
use linux_device_driver.Scull.Transfer.Read.{FileRead, read_refines}
use linux_device_driver.Scull.Transfer.Write.Flat.{write-IsValid}
use linux_device_driver.Scull.File.{open_dev}
use linux_device_driver.Scull.History.{Sizes, Step, opens, reads, writes, Reach, here, next}

-- The device is valid and holds every block that was handed out since `m` and not given back.
abbrev pub Sound : ℕ → Mem → Dev → Mem → Type 0
Sound b m dev n = IsValid dev × Balanced m n b (blocks dev.items)

trim-Sound :
    (g : Config) (dev : Dev) (m : Mem)
    → Sizes g
    → IsValid dev
    → Holds (λ r. Sound (blocks dev.items) m r.0 r.1) (trim g dev m)
trim-Sound g dev m s v =
    Holds-mono _ _ (trim g dev m) (λ r h. emptied r.0 r.1 h.0 h.1) (trim_lem g dev m v)
  where
    emptied :
        (d : Dev) (n : Mem)
        → d ≡ record dev { items = []; size = 0; quantum = g.quantum; qset = g.qset }
        → Moves m n 0 (blocks dev.items)
        → Sound (blocks dev.items) m d n
    emptied d n e moved = rw e (
      record { shaped = tt; some_bytes = s.some_bytes; int_sized = s.int_sized },
      omega (arith, moved),
    )

open_dev-Sound :
    (g : Config) (write_only interrupted : Bool) (dev : Dev) (m : Mem)
    → Sizes g
    → IsValid dev
    → Holds (λ r. Sound (blocks dev.items) m r.1 r.2) (open_dev g write_only interrupted dev m)
unfolding open_dev
open_dev-Sound g false i dev m s v = (v, omega arith)
open_dev-Sound g true true dev m s v = (v, omega arith)
open_dev-Sound g true false dev m s v = bind (trim g dev m) (trim-Sound g dev m s v)
  where
    bind :
        (o : Outcome (Dev × Mem))
        → Holds (λ r. Sound (blocks dev.items) m r.0 r.1) o
        → Holds
            (λ (r : Ret × Dev × Mem). Sound (blocks dev.items) m r.1 r.2)
            (o >>= λ t. done (ok 0, t.0, t.1))
    bind (done t) h = h
    bind oops h = h

Step-Sound :
    (k : Kernel) {dev d : Dev} {m n : Mem}
    → Step k dev m d n
    → IsValid dev
    → Sound (blocks dev.items) m d n
Step-Sound k (opens g w i {dev} {m} r s e) v =
    Holds-done (λ r. Sound (blocks dev.items) m r.1 r.2) (open_dev g w i dev m)
      (open_dev-Sound g w i dev m s v) e
Step-Sound k (reads c f_pos count {dev} {m} r fits e) v =
    let f =
      Holds-done (λ r. FileRead c dev m f_pos _ r) (read k c dev m f_pos count)
        (read_refines k c dev m f_pos count v fits) e in
    (f.valid, f.balanced)
Step-Sound k (writes c f_pos buf {dev} {m} r fits e) v =
    Holds-done (λ r. Sound (blocks dev.items) m r.dev r.mem) (write k c dev m f_pos buf)
      (write-IsValid k c dev m f_pos buf v fits) e

-- After any sequence of calls on a valid device, opens while the module's quantum and quantum set make
-- items of some bytes that fit an int, and reads and writes at positions whose item's number fits an
-- int, failed ones included: the device is valid, and every block handed out on the way is held by it
-- or was given back.
pub Reach-Sound :
    (k : Kernel) {dev : Dev} {m : Mem} {d : Dev} {n : Mem}
    → Reach k dev m d n
    → IsValid dev
    → Sound (blocks dev.items) m d n
Reach-Sound k here v = (v, omega arith)
Reach-Sound k (next r s) v =
    let before = Reach-Sound k r v in
    let after = Step-Sound k s before.0 in (after.0, omega (arith, before.1, after.1))

-- The life of a valid device that began empty, under calls like those: when it is trimmed at last,
-- as many blocks were given back as were handed out.
pub trim_after_Reach :
    (k : Kernel) (g : Config) {dev d : Dev} {m n : Mem}
    → IsValid dev
    → dev.items ≡ []
    → Reach k dev m d n
    → Holds (λ r. r.1.allocs + m.frees ≡ m.allocs + r.1.frees) (trim g d n)
trim_after_Reach k g {dev} {d} {m} {n} v e r =
    let s = Reach-Sound k r v in
    Holds-mono _ _ (trim g d n) (λ t h. omega (arith, s.1, h.1, ap blocks e)) (trim_lem g d n s.0)
