-- ===== src/Snull/Pool.antt =====
-- The packet pools: set-up and tear-down.
use linux_device_driver.Common.{
  ℕ, zero, suc, ◌+◌, ◌≡◌, ◌≤◌, Bool, List, [], ◌∷◌, arith, length, inl, inr,
}
use linux_device_driver.Kernel.{Kernel, Mem, kmalloc, kfree}
use linux_device_driver.Kernel.Ledger.{Moves, Balanced, kmalloc_cases}
use linux_device_driver.Snull.{Packet, setup_pool, teardown_pool}

teardown-Moves : (ps : List Packet) (m : Mem) → Moves m (teardown_pool ps m) 0 (length ps)
unfolding teardown_pool kfree
teardown-Moves [] m = omega arith
teardown-Moves (p ∷ ps) m = omega (arith, teardown-Moves ps (kfree m))

-- The packets of a new pool were allocated one each, belong to the device, and are no more than
-- asked for.
setup-Moves :
    (k : Kernel) (w : Bool) (i : ℕ) (pool : List Packet) (m : Mem)
    → (got : ℕ) × Moves m (setup_pool k w i pool m).1 got 0
      × (length (setup_pool k w i pool m).0 ≡ length pool + got)
      × (got ≤ i)
unfolding setup_pool
setup-Moves k w zero pool m = (0, omega arith, omega arith, omega arith)
setup-Moves k w (suc i) pool m = elim (kmalloc_cases k m) [
  | inl (granted, moved) ↦
      let (got, rest, l, few) =
        setup-Moves k w i (record { second = w; bytes = [] } ∷ pool) (kmalloc k m).1 in
      rw granted (got + 1, omega (arith, moved, rest), omega (arith, l), omega (arith, few))
  | inr (refusal, moved, why) ↦ rw refusal (0, moved, omega arith, omega arith)
]

-- A pool that is set up, whether all of its packets were granted or not, holds at most as many
-- packets as asked for, and tearing it down gives every one of them back.
pub setup_then_teardown :
    (k : Kernel) (w : Bool) (pool_size : ℕ) (m : Mem)
    → (let made = setup_pool k w pool_size [] m in
        (length made.0 ≤ pool_size) × Balanced m (teardown_pool made.0 made.1) 0 0)
setup_then_teardown k w pool_size m =
    let (got, moved, l, few) = setup-Moves k w pool_size [] m in
    let made = setup_pool k w pool_size [] m in
    (
      omega (arith, l, few),
      record { balance = omega (arith, moved, l, teardown-Moves made.0 made.1) },
    )
