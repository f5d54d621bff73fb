-- ===== src/Jit.antt =====
-- The asynchronous files of jit/jit.c: a timer or a tasklet that runs five times and then wakes the
-- reader. The text of a row is left out, but for its time and the time since the one before.
pub mod Runs
pub mod Wakes
mod Tests
use linux_device_driver.Common.{
  ℕ, zero, suc, ◌+◌, ◌-◌, Bool, true, false, Option, none, some, List, [], ◌∷◌, ◌++◌, if◌then◌else◌,
  not, ◌==◌, ◌&&◌,
}
use linux_device_driver.Kernel.{Errno, erestartsys, enomem, Kernel, Mem, kmalloc, kfree}

-- What a run prints: the time, and the time since the run before.
pub record Row : Type 0 where
  pub at : ℕ
  pub delta : ℕ

-- `struct jit_data`; `rows` is what stands in `buf`, and `armed` whether the timer or the tasklet is
-- scheduled, `awake` whether the reader was woken.
pub record Data : Type 0 where
  pub expires : ℕ
  pub hi : Bool
  pub prevjiffies : ℕ
  pub rows : List Row
  pub loops : ℕ
  pub armed : Bool
  pub awake : Bool

abbrev pub async_loops : ℕ
async_loops = 5

-- `jit_timer_fn` at time `j`.
unfoldable pub jit_timer_fn : (tdelay j : ℕ) → Data → Data
jit_timer_fn tdelay j d =
    let d' = record d {
      rows = d.rows ++ (record { at = j; delta = j - d.prevjiffies } ∷ []);
      loops = d.loops - 1;
      armed = false;
    } in
    if not (d'.loops == 0)
    then record d' { expires = d.expires + tdelay; prevjiffies = j; armed = true }
    else record d' { awake = true }

-- `jit_tasklet_fn` at time `j`.
unfoldable pub jit_tasklet_fn : (j : ℕ) → Data → Data
jit_tasklet_fn j d =
    let d' = record d {
      rows = d.rows ++ (record { at = j; delta = j - d.prevjiffies } ∷ []);
      loops = d.loops - 1;
      armed = false;
    } in
    if not (d'.loops == 0)
    then record d' { prevjiffies = j; armed = true }
    else record d' { awake = true }

-- The runs at the given times, as long as the timer or the tasklet is scheduled.
unfoldable pub run_all : (ℕ → Data → Data) → List ℕ → Data → Data
run_all fn [] d = d
run_all fn (j ∷ js) d = let d' = run_all fn js (fn j d) in if d.armed then d' else d

abbrev pub started : (expires j : ℕ) (hi : Bool) → Data
started expires j hi = record {
  expires = expires;
  hi = hi;
  prevjiffies = j;
  rows = record { at = j; delta = 0 } ∷ [];
  loops = async_loops;
  armed = true;
  awake = false;
}

-- `wait_event_interruptible(data->wait, !data->loops)` and the end of both readers. `early` is the
-- structure when the reader looks at the condition first, and `late` as it is after some time of
-- sleep. A sleeper goes on only if it is woken, by the structure's wake-up or by a signal, and looks
-- at the condition again. The structure is given back unless a signal is pending. Nothing while the
-- reader sleeps; else the error, if any, the rows, whose length is the result, and whether the
-- structure is still scheduled.
unfoldable pub await :
    (signal : Bool) → (early late : Data) → Mem → Option (Option Errno × List Row × Bool × Mem)
await signal early late m =
    if signal
    then some (some erestartsys, late.rows, late.armed, m)
    else if early.loops == 0
    then some (none, early.rows, early.armed, kfree m)
    else if late.awake && late.loops == 0
    then some (none, late.rows, late.armed, kfree m)
    else none

-- `jit_timer` at time `j`; `before` are the times of the runs until the reader looks at the
-- condition first, and `js` those of the runs in its sleep.
unfoldable pub jit_timer :
    Kernel
    → (tdelay j : ℕ) (before js : List ℕ) (signal : Bool) → Mem
    → Option (Option Errno × List Row × Bool × Mem)
jit_timer k tdelay j before js signal m =
    let (granted, m') = kmalloc k m in
    let early = run_all (jit_timer_fn tdelay) before (started (j + tdelay) j false) in
    let reading = await signal early (run_all (jit_timer_fn tdelay) js early) m' in
    if granted then reading else some (some enomem, [], false, m')

-- `jit_tasklet`.
unfoldable pub jit_tasklet :
    Kernel
    → (j : ℕ) (hi : Bool) (before js : List ℕ) (signal : Bool) → Mem
    → Option (Option Errno × List Row × Bool × Mem)
jit_tasklet k j hi before js signal m =
    let (granted, m') = kmalloc k m in
    let early = run_all jit_tasklet_fn before (started 0 j hi) in
    let reading = await signal early (run_all jit_tasklet_fn js early) m' in
    if granted then reading else some (some enomem, [], false, m')
