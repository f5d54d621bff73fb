-- ===== src/Scull/History.antt =====
-- Any sequence of calls on one scull device: open, read, write.
pub mod NoLeak
use linux_device_driver.Common.{ℕ, ◌*◌, ◌/◌, ◌≡◌, ◌≤◌, ◌<◌, Bool, List}
use linux_device_driver.Kernel.{Kernel, Call, Mem, Outcome, done, Ret}
use linux_device_driver.Scull.Device.{Dev, Config, int_max}
use linux_device_driver.Scull.Transfer.{Reply, read, write}
use linux_device_driver.Scull.File.{open_dev}

-- The sizes that a trimmed device may take: an item has bytes, and its size fits an `int`.
pub record Sizes (g : Config) : Type 0 where
  pub some_bytes : 0 < g.quantum * g.qset
  pub int_sized : g.quantum * g.qset ≤ int_max

-- One call on a device that is done: the device and the books before and after it. Callers choose
-- the arguments; the module's sizes are those of the moment.
pub data Step (k : Kernel) : Dev → Mem → Dev → Mem → Type 0 where
  opens :
      (g : Config) (write_only interrupted : Bool) {dev : Dev} {m : Mem} (r : Ret × Dev × Mem)
      → Sizes g
      → open_dev g write_only interrupted dev m ≡ done r
      → Step k dev m r.1 r.2
  reads :
      (c : Call) (f_pos count : ℕ) {dev : Dev} {m : Mem} (r : Reply)
      → f_pos / (dev.quantum * dev.qset) ≤ int_max
      → read k c dev m f_pos count ≡ done r
      → Step k dev m r.dev r.mem
  writes :
      (c : Call) (f_pos : ℕ) (buf : List ℕ) {dev : Dev} {m : Mem} (r : Reply)
      → f_pos / (dev.quantum * dev.qset) ≤ int_max
      → write k c dev m f_pos buf ≡ done r
      → Step k dev m r.dev r.mem

pub data Reach (k : Kernel) (dev : Dev) (m : Mem) : Dev → Mem → Type 0 where
  here : Reach k dev m dev m
  next : {d e : Dev} {n o : Mem} → Reach k dev m d n → Step k d n e o → Reach k dev m e o
