-- ===== src/Kernel.antt =====
-- What the drivers ask of the kernel: error numbers, the outcome of a call, memory and user copies.
-- None of it stands in the repository: the kernel's answers are the parameter `Kernel`.
pub mod Ledger
pub mod Samples
pub mod Clash
use linux_device_driver.Common.{
  arith, refl, ℕ, ◌+◌, ◌≡◌, Bool, true, false, Option, none, some, List, if◌then◌else◌, length,
}

-- The error numbers that the drivers return, negated in the source.
pub data Errno : Type 0 where
  erestartsys efault enomem einval enotty eperm ebusy eagain enodev eio enoioctlcmd eopnotsupp :
      Errno

-- What a handler returns: a number that is not negative, or an error.
pub data Ret : Type 0 where
  ok : ℕ → Ret
  err : Errno → Ret

-- `oops` stands for undefined behaviour: a read or write through a null or wild pointer, a
-- division by zero, an `int` that overflows.
pub data Outcome {ℓ} (A : Type ℓ) : Type ℓ where
  done : A → Outcome A
  oops : Outcome A

infixl 5 ◌>>=◌
abbrev pub ◌>>=◌ {ℓ κ} : {A : Type ℓ} {B : Type κ} → Outcome A → (A → Outcome B) → Outcome B
done a >>= f = f a
oops >>= f = oops

-- A dereference: undefined on a null pointer, or behind the end of an array.
abbrev pub deref {ℓ} : {A : Type ℓ} → Option A → Outcome A
deref none = oops
deref (some a) = done a

-- `Holds P o`: the run is defined, and its result satisfies `P`.
abbrev pub Holds {ℓ} : {A : Type ℓ} → (A → Type 0) → Outcome A → Type 0
Holds P (done a) = P a
Holds P oops = ⊥

-- The kernel's answers.  The n-th request for memory is granted or not; a granted block holds some
-- bytes that nobody has written.  `copy_from_user` leaves `left` bytes uncopied, and what the
-- destination then holds is known where `left` is 0.
pub record Kernel : Type 0 where
  pub grants : ℕ → Bool
  pub junk : ℕ → ℕ → List ℕ
  pub length-junk : (n size : ℕ) → length (junk n size) ≡ size
  pub copied : (left : ℕ) (src : List ℕ) → List ℕ
  pub length-copied : (left : ℕ) (src : List ℕ) → length (copied left src) ≡ length src
  pub copied_all : (src : List ℕ) → copied 0 src ≡ src

-- What happens to one call of a read or write handler, besides its arguments: a signal while it
-- waits for the semaphore, and the number of bytes that the user copy leaves uncopied.
pub record Call : Type 0 where
  pub interrupted : Bool
  pub left : ℕ

-- The allocator's books: requests made, blocks handed out, blocks given back.
pub record Mem : Type 0 where
  pub requests : ℕ
  pub allocs : ℕ
  pub frees : ℕ

module _ (k : Kernel) where
  -- `kmalloc` and its kin: whether a block is handed out, and the books after it.
  unfoldable pub kmalloc : Mem → Bool × Mem
  kmalloc m =
      if k.grants m.requests
      then (true, record m { requests = m.requests + 1; allocs = m.allocs + 1 })
      else (false, record m { requests = m.requests + 1 })

-- `kfree` of a block.
unfoldable pub kfree : Mem → Mem
kfree m = record m { frees = m.frees + 1 }

-- `kfree` of a pointer that may be null, where it does nothing.
unfoldable pub kfree? {ℓ} : {A : Type ℓ} → Option A → Mem → Mem
unfolding kfree
kfree? none m = m
kfree? (some a) m = kfree m

pub Holds-mono :
    {A : Type 0} (P Q : A → Type 0) (o : Outcome A) → ((a : A) → P a → Q a) → Holds P o → Holds Q o
Holds-mono P Q (done a) f h = f a h
Holds-mono P Q oops f h = h

pub Holds-done :
    {A : Type 0} (P : A → Type 0) (o : Outcome A) {a : A} → Holds P o → o ≡ done a → P a
Holds-done P (done b) h e = mathlib.Core.Path.subst P (ground arith) h
Holds-done P oops h e = absurd h

pub Holds-result :
    {A : Type 0} (P : A → Type 0) (o : Outcome A) → Holds P o → (a : A) × (o ≡ done a) × P a
Holds-result P (done b) h = (b, refl, h)
Holds-result P oops h = absurd h
