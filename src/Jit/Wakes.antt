-- ===== src/Jit/Wakes.antt =====
-- The timer and the tasklet run five times, and then the reader wakes.
use linux_device_driver.Common.{
  ℕ, ◌+◌, ◌≡◌, ◌≤◌, ◌<◌, Bool, true, false, Option, none, some, List, ◌∷◌, inl, inr, ◌==◌, arith,
  refl, length, take, ◌++◌, length-append, take-append, Bool-cases,
}
use linux_device_driver.Kernel.{Errno, erestartsys, Kernel, Mem, kmalloc, kfree}
use linux_device_driver.Kernel.Ledger.{Moves, Balanced}
use linux_device_driver.Jit.{Row, Data, started, async_loops, await, jit_timer, jit_tasklet}
use linux_device_driver.Jit.Runs.{spaced, Looks, timer-Looks, tasklet-Looks}

-- What becomes of a reader that no signal wakes, with the runs at the given times.
abbrev pub Reader : Mem → ℕ → List ℕ → Option (Option Errno × List Row × Bool × Mem) → Type 0
Reader m j js r =
    (length js < async_loops → r ≡ none)
    × (async_loops ≤ length js
        → (m' : Mem) × (r
            ≡ some (none, record { at = j; delta = 0 } ∷ spaced j (take async_loops js), false, m'))
          × Balanced m m' 0 0)

await-Reader :
    (j expires : ℕ) (hi : Bool) (before js : List ℕ) (m m1 : Mem) (early late : Data)
    → Looks (started expires j hi) early late before js
    → Moves m m1 1 0
    → Reader m j (before ++ js) (await false early late m1)
unfolding await kfree
await-Reader j expires hi before js m m1 early late v moved =
    let sum = length-append before js in
    (
      (λ few.
          let not_yet : (early.loops == 0) ≡ false = ground (arith, v.first.to_go, few, sum) in
          rw (not_yet, (v.last.sleeping few).1) refl),
      λ enough. elim (Bool-cases (early.loops == 0)) [
        | inl at_once ↦
            let all : async_loops ≤ length before = ground (arith, v.first.to_go, at_once) in
            let same = take-append async_loops before js all in
            (
              kfree m1,
              rw (at_once, v.first.printed, (v.first.woken all).0, same) refl,
              omega (arith, moved),
            )
        | inr sleeps ↦
            let last : (late.loops == 0) ≡ true = ground (arith, v.last.to_go, enough) in
            let (stopped, woken) = v.last.woken enough in
            (kfree m1, rw (sleeps, woken, last, v.last.printed, stopped) refl, omega (arith, moved))
      ],
    )

-- A reader of either file whose structure is allocated and whom no signal wakes: it sleeps as long
-- as there were fewer than five runs, before its first look at the condition and in its sleep; after
-- the fifth it does not go to sleep or is woken, and returns with the row of its own time and those
-- of five runs, each with the time since the one before; the structure is given back and no longer
-- scheduled.
pub jit_wakes :
    (k : Kernel) (tdelay j : ℕ) (hi : Bool) (before js : List ℕ) (m : Mem)
    → k.grants m.requests ≡ true
    → Reader m j (before ++ js) (jit_timer k tdelay j before js false m)
      × Reader m j (before ++ js) (jit_tasklet k j hi before js false m)
unfolding jit_timer jit_tasklet kmalloc
jit_wakes k tdelay j hi before js m granted =
    let m1 = record m { requests = m.requests + 1; allocs = m.allocs + 1 } in
    rw granted (
      await-Reader j (j + tdelay) false before js m m1 _ _
          (timer-Looks tdelay (j + tdelay) j false before js) (omega arith),
      await-Reader j 0 hi before js m m1 _ _ (tasklet-Looks 0 j hi before js) (omega arith),
    )

abbrev pub Leaves : Mem → Option (Option Errno × List Row × Bool × Mem) → Type 0
Leaves m r =
    (rows : List Row) × (m' : Mem) × (r ≡ some (some erestartsys, rows, true, m')) × Moves m m' 1 0

await-Leaves :
    (m m1 : Mem) (early late : Data)
    → late.armed ≡ true
    → Moves m m1 1 0
    → Leaves m (await true early late m1)
unfolding await
await-Leaves m m1 early late armed moved = rw armed (late.rows, m1, refl, moved)

-- A signal that wakes a reader of either file before the fifth run: the structure is never given
-- back, and the timer or the tasklet stays scheduled.
pub jit_signal_leaks :
    (k : Kernel) (tdelay j : ℕ) (hi : Bool) (before js : List ℕ) (m : Mem)
    → k.grants m.requests ≡ true
    → length (before ++ js) < async_loops
    → Leaves m (jit_timer k tdelay j before js true m)
      × Leaves m (jit_tasklet k j hi before js true m)
unfolding jit_timer jit_tasklet kmalloc
jit_signal_leaks k tdelay j hi before js m granted few =
    let m1 = record m { requests = m.requests + 1; allocs = m.allocs + 1 } in
    let timer = (timer-Looks tdelay (j + tdelay) j false before js).last.sleeping few in
    let tasklet = (tasklet-Looks 0 j hi before js).last.sleeping few in
    rw granted
      (await-Leaves m m1 _ _ timer.0 (omega arith), await-Leaves m m1 _ _ tasklet.0 (omega arith))
