-- ===== src/Scull/File.antt =====
-- The file operations of scull/main.c beside the transfers: `scull_open`, `scull_release`,
-- `scull_llseek`, and the iterator behind /proc/scullseq.
pub mod Seek
pub mod Sequence
use linux_device_driver.Common.{
  ℕ, ◌+◌, ◌%◌, ◌^◌, Bool, Option, none, some, if◌then◌else◌, ltb, leb, ◌==◌,
}
use linux_device_driver.Kernel.{erestartsys, einval, Ret, ok, err, Outcome, done, ◌>>=◌, Mem}
use linux_device_driver.Scull.Device.{Dev, Config, trim}

-- `interrupted` is what `down_interruptible` returns, where it is asked.
unfoldable pub open_dev : Config → Bool → Bool → Dev → Mem → Outcome (Ret × Dev × Mem)
open_dev g write_only interrupted dev m =
    if write_only
    then (if interrupted
        then done (err erestartsys, dev, m)
        else do t ← trim g dev m; done (ok 0, t.0, t.1))
    else done (ok 0, dev, m)

unfoldable pub release : Ret
release = ok 0

-- A `loff_t` is its 64-bit pattern: it is negative from 2 ^ 63 on.
abbrev pub is_negative : ℕ → Bool
is_negative w = leb (2 ^ 63) w

abbrev pub move_to : ℕ → ℕ → Ret × ℕ
move_to f_pos newpos = if is_negative newpos then (err einval, f_pos) else (ok newpos, newpos)

-- The result and the file's position after the call.
unfoldable pub llseek : ℕ → ℕ → ℕ → ℕ → Ret × ℕ
llseek size f_pos off whence =
    if whence == 0
    then move_to f_pos off
    else if whence == 1
    then move_to f_pos ((f_pos + off) % 2 ^ 64)
    else if whence == 2
    then move_to f_pos ((size + off) % 2 ^ 64)
    else (err einval, f_pos)

-- The device at a position of the sequence, and the next position with its device.
unfoldable pub seq_start : ℕ → ℕ → Option ℕ
seq_start nr_devs pos = if leb nr_devs pos then none else some pos

unfoldable pub seq_next : ℕ → ℕ → ℕ × Option ℕ
seq_next nr_devs pos = let pos' = pos + 1 in (pos', if leb nr_devs pos' then none else some pos')
