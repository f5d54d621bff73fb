-- ===== src/Kernel/Ledger.antt =====
-- The allocator's books across requests and releases.
use linux_device_driver.Common.{
  Bool-cases, refl, ◌≢◌, inl, inr, ℕ, ◌+◌, ◌≡◌, ◌⊎◌, true, false, arith,
}
use linux_device_driver.Kernel.{Call, Errno, erestartsys, enomem, efault, Kernel, Mem, kmalloc}

-- From `m` to `m'` exactly `got` blocks were handed out and `gone` given back.
pub record Moves (m m' : Mem) (got gone : ℕ) : Type 0 where
  pub allocated : m'.allocs ≡ m.allocs + got
  pub freed : m'.frees ≡ m.frees + gone

-- A holder that had `b` blocks and now has `b'` accounts for all blocks handed out and given back
-- in between: none was leaked, and none given back twice.
pub record Balanced (m m' : Mem) (b b' : ℕ) : Type 0 where
  pub balance : m'.allocs + m.frees + b ≡ m.allocs + m'.frees + b'

-- Some request was refused.
abbrev pub Refused : Kernel → Type 0
Refused k = (i : ℕ) × (k.grants i ≡ false)

-- A request hands out one block, or it was refused and hands out none; none is given back.
pub kmalloc_cases :
    (k : Kernel) (m : Mem)
    → (((kmalloc k m).0 ≡ true) × Moves m (kmalloc k m).1 1 0)
      ⊎ (((kmalloc k m).0 ≡ false) × Moves m (kmalloc k m).1 0 0 × Refused k)
unfolding kmalloc
kmalloc_cases k m = elim (Bool-cases (k.grants m.requests)) [
  | inl e ↦ inl (rw e refl, rw e (omega arith))
  | inr e ↦ inr (rw e refl, rw e (omega arith), (m.requests, e))
]

-- Why a transfer fails: a signal, a refused request for memory, or a fault in the user copy.
abbrev pub Cause : Kernel → Call → Errno → Type 0
Cause k c e =
    ((e ≡ erestartsys) × (c.interrupted ≡ true))
    ⊎ (((e ≡ enomem) × Refused k) ⊎ ((e ≡ efault) × (c.left ≢ 0)))
