-- ===== src/Jiq.antt =====
-- The work queue files of jit/jiq.c: a work item prints rows into a page and queues itself again,
-- until the page is almost full; then the reader wakes up. The text of a row is left out, but for
-- its length, which depends on the running process.
pub mod Ends
mod Tests
use linux_device_driver.Common.{
  ℕ, zero, suc, ◌+◌, ◌-◌, Bool, true, false, Option, none, some, if◌then◌else◌, ltb, ◌==◌, ◌||◌,
}

-- `struct clientdata`: `buf` is `len` bytes behind the start of the page. `queued` is whether the
-- work is queued, and `awake` whether a reader that waits on `jiq_wait` was woken.
pub record Client : Type 0 where
  pub len : ℕ
  pub jiffies : ℕ
  pub delay : ℕ
  pub queued : Bool
  pub awake : Bool

-- The length of the heading.
abbrev pub header : ℕ
header = 42

-- `page` is the kernel's PAGE_SIZE.
module _ (page : ℕ) where
  abbrev pub limit : ℕ
  limit = page - 128

  -- `jiq_print` at time `j`, for a row of `row` bytes: the result 1, or 0 when the reader was woken.
  unfoldable pub jiq_print : (j row : ℕ) → Client → Bool × Client
  jiq_print j row d =
      let head = if d.len == 0 then header else 0 in
      if ltb limit d.len
      then (false, record d { awake = true })
      else (true, record d { len = d.len + (head + row); jiffies = j })

  -- `jiq_print_wq`: the work is queued again, after the delay if there is one, unless the reader was
  -- woken.
  unfoldable pub jiq_print_wq : (j row : ℕ) → Client → Client
  jiq_print_wq j row d =
      let (again, d') = jiq_print j row d in if again then record d' { queued = true } else d'

  -- At most `runs` runs of the work, as long as it is queued: the n-th is at time `time n` and prints
  -- a row of `row n` bytes. The queue takes the work off before it runs it.
  unfoldable pub run_work : (time row : ℕ → ℕ) → (runs n : ℕ) → Client → Client
  run_work time row zero n d = d
  run_work time row (suc runs) n d =
      let d' = jiq_print_wq (time n) (row n) (record d { queued = false }) in
      let rest = run_work time row runs (suc n) d' in if d.queued then rest else d

  -- `jiq_read_wq` and `jiq_read_wq_delayed` with their delay, which sleep until they are woken or a
  -- signal comes, here after `runs` runs of the work at most. Nothing while the reader sleeps; else
  -- what it returns, and the work's data as it leaves them.
  unfoldable pub jiq_read :
      (time row : ℕ → ℕ) → (signal : Bool) → (runs delay now : ℕ) → Option (ℕ × Client)
  jiq_read time row signal runs delay now =
      let d =
        run_work time row runs 0
          (record { len = 0; jiffies = now; delay = delay; queued = true; awake = false }) in
      if signal || d.awake then some (d.len, d) else none
